-- ===== src/Mmio/Store.antt =====
-- A device whose registers are a function: an instance of the interface that runs.
use software_vsync_modulatio.Prelude.{ℕ, refl, ◌==◌, if◌then◌else◌, arith}
use package.software_vsync_modulatio.Mmio.{Mmio, IsPlain}

abbrev pub store : Mmio (ℕ → ℕ)
store = record {
  read_offset_dword = λ a d. (d a, d);
  write_offset_dword = λ a v d b. if b == a then v else d b;
}

abbrev pub content : ℕ → (ℕ → ℕ) → ℕ
content a d = d a

pub store-IsPlain : IsPlain store content
store-IsPlain = record {
  read_value = λ a d. refl;
  read_keeps = λ a b d. refl;
  write_same = λ a v d. ground arith;
  write_other = λ a b v d e. rw e refl;
}
