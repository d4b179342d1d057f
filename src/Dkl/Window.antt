-- ===== src/Dkl/Window.antt =====
-- lib/dkl.cpp and dkl.h: what the comment in `dkl::program_mmio` says of the device. A Dekel PHY has
-- more than the 4 KB of registers that its aperture shows, and two bits of an index register point
-- the aperture into them.
use software_vsync_modulatio.Prelude.{
  ℕ, ◌+◌, ◌*◌, ◌/◌, ◌%◌, ◌^◌, ◌≡◌, ◌≢◌, ◌<◌, refl, Bool, false, ◌==◌, ltb, if◌then◌else◌, arith,
}
use software_vsync_modulatio.Mmio.{Mmio}

-- The address of the register at an offset in the aperture of a PHY.
abbrev pub in_aperture : ℕ → ℕ → ℕ
in_aperture phy_num k = 0x168000 + phy_num * 0x1000 + k

-- The register with the index of a port, and where the aperture points for its content.
abbrev pub index_register : ℕ → ℕ
index_register phy_num = if ltb phy_num 4 then 0x1010A0 else 0x1010A4

abbrev pub window : ℕ → ℕ → ℕ
window phy_num index = index / 2 ^ (8 * (phy_num % 4)) % 4

-- `index` is the content of the index register, and `peek` that of the registers which the aperture
-- shows when it points at 2, by their offsets. Elsewhere the first register of the PLL reads as 0.
pub record IsWindowed {D : Type 0} (m : Mmio D) (phy_num : ℕ) (index : D → ℕ) (peek : ℕ → D → ℕ)
    : Type 0 where
  pub read_open :
      (k : ℕ) (d : D)
      → k < 0x1000
      → window phy_num (index d) ≡ 2
      → (m.read_offset_dword (in_aperture phy_num k) d).0 ≡ peek k d
  pub read_closed :
      (d : D)
      → window phy_num (index d) ≢ 2
      → (m.read_offset_dword (in_aperture phy_num 0x200) d).0 ≡ 0
  pub read_keeps : (a k : ℕ) (d : D) → peek k (m.read_offset_dword a d).1 ≡ peek k d
  pub read_keeps_index : (a : ℕ) (d : D) → index (m.read_offset_dword a d).1 ≡ index d
  pub index_value : (v : ℕ) (d : D) → index (m.write_offset_dword (index_register phy_num) v d) ≡ v
  pub index_keeps :
      (v k : ℕ) (d : D)
      → k < 0x1000
      → peek k (m.write_offset_dword (index_register phy_num) v d) ≡ peek k d
  pub write_same :
      (k v : ℕ) (d : D)
      → k < 0x1000
      → window phy_num (index d) ≡ 2
      → peek k (m.write_offset_dword (in_aperture phy_num k) v d) ≡ v
  pub write_other :
      (k j v : ℕ) (d : D)
      → k < 0x1000
      → window phy_num (index d) ≡ 2
      → (j == k) ≡ false
      → peek j (m.write_offset_dword (in_aperture phy_num k) v d) ≡ peek j d
  pub write_keeps_index :
      (k v : ℕ) (d : D)
      → k < 0x1000
      → index (m.write_offset_dword (in_aperture phy_num k) v d) ≡ index d

-- A device with one such PHY, which has no registers elsewhere.
pub record Windowed : Type 0 where
  pub index : ℕ
  pub inside : ℕ → ℕ

module _ (phy_num : ℕ) where
  abbrev pub is_open : Windowed → Bool
  is_open d = window phy_num d.index == 2

  abbrev pub windowed : Mmio Windowed
  windowed = record {
    read_offset_dword = λ a d. (if is_open d then d.inside a else 0, d);
    write_offset_dword = λ a v d.
        if a == index_register phy_num
        then record d { index = v }
        else (if is_open d then record d { inside = λ b. if b == a then v else d.inside b } else d);
  }

  abbrev pub inside_at : ℕ → Windowed → ℕ
  inside_at k d = d.inside (in_aperture phy_num k)

  pub windowed-IsWindowed : IsWindowed windowed phy_num (λ d. d.index) inside_at
  windowed-IsWindowed = record {
    read_open = λ k d h e. ground arith;
    read_closed = λ d e. ground arith;
    read_keeps = λ a k d. refl;
    read_keeps_index = λ a d. refl;
    index_value = λ v d. ground arith;
    index_keeps = λ v k d h. ground arith;
    write_same = λ k v d h e. ground arith;
    write_other = λ k j v d h e n. ground arith;
    write_keeps_index = λ k v d h. ground arith;
  }
