-- ===== src/Primary/Answers.antt =====
-- What `do_msg` sends to a secondary system.
use software_vsync_modulatio.Prelude.{
  ℕ, ◌-◌, ◌≤◌, ◌≡◌, Bool, some, List, [], ◌∷◌, ◌++◌, length, drop, replicate, length-append,
  length-drop, length-replicate, arith, All, Bool-cases, Option-cases, inl, inr, ◌↔◌,
}
use software_vsync_modulatio.Prelude.Int.{pos}
use software_vsync_modulatio.Prelude.Signed.{magnitude}
use software_vsync_modulatio.Primary.{
  Request, Exchange, Reply, answer, after_answer, do_msg, fill, get_last_vsyncs, is_bad_count,
  max_timestamps, is_ack,
}

abbrev pub FullArray : List ℕ → Type 0
FullArray va = length va ≡ max_timestamps

get_last_vsyncs-length :
    (buffer : List ℕ) (n : ℕ) {va : List ℕ} → get_last_vsyncs buffer n ≡ some va → length va ≡ n
unfolding get_last_vsyncs
get_last_vsyncs-length buffer n e = ground (arith, length-drop (length buffer - n) buffer)

pub get_last_vsyncs-enough :
    (buffer : List ℕ) (n : ℕ)
    → n ≤ length buffer
    → get_last_vsyncs buffer n ≡ some (drop (length buffer - n) buffer)
unfolding get_last_vsyncs
get_last_vsyncs-enough buffer n h = ground arith

fill-length : (va : List ℕ) → length va ≤ max_timestamps → FullArray (fill va)
unfolding fill
fill-length va h = omega (
  arith,
  length-append va (replicate (max_timestamps - length va) 0),
  length-replicate {A = ℕ} (max_timestamps - length va) 0,
)

-- A request for n timestamps is answered exactly when n is from 1 to 100 and the buffer has so
-- many; the array is then the newest n, oldest first, and zeros.
pub answer_iff :
    (n : ℕ) (r : Request) (buffer va : List ℕ)
    → r.vblank_count ≡ pos n
    → (answer r buffer ≡ some va) ↔ (
        (1 ≤ n)
        × (n ≤ max_timestamps)
        × (n ≤ length buffer)
        × (drop (length buffer - n) buffer ++ replicate (max_timestamps - n) 0 ≡ va))
unfolding answer get_last_vsyncs is_bad_count fill
answer_iff n r buffer va e = ground (arith, length-drop (length buffer - n) buffer)

answer-FullArray :
    (r : Request) (buffer : List ℕ) {va : List ℕ} → answer r buffer ≡ some va → FullArray va
unfolding answer is_bad_count
answer-FullArray r buffer {va} e =
    elim (Option-cases (get_last_vsyncs buffer (magnitude r.vblank_count))) [
      | inl few ↦ ground arith
      | inr (ts, got) ↦
          ground
            (arith, get_last_vsyncs-length buffer (magnitude r.vblank_count) got, fill-length ts)
    ]

after_answer-FullArrays :
    (r : Request) (ok : Bool) (va : List ℕ) (rest : Reply)
    → FullArray va
    → All FullArray rest.sent
    → All FullArray (after_answer r ok va rest).sent
unfolding after_answer
after_answer-FullArrays r ok va rest h t = elim (Bool-cases ok) [
  | inl sent ↦ elim (Bool-cases (is_ack r.header)) [
    | inl last ↦ rw (sent, last) (h, tt)
    | inr more ↦ rw (sent, more) (h, t)
  ]
  | inr failed ↦ rw failed (h, tt)
]

-- Whatever messages arrive, every array that do_msg sends has exactly 100 elements.
pub do_msg-FullArrays : (xs : List Exchange) → All FullArray (do_msg xs).sent
unfolding do_msg
do_msg-FullArrays [] = tt
do_msg-FullArrays (x ∷ xs) = elim (Option-cases x.received) [
  | inl lost ↦ rw (lost, do_msg) tt
  | inr (r, got) ↦ elim (Option-cases (answer r x.buffer)) [
    | inl refused ↦ rw (got, refused, do_msg) tt
    | inr (va, made) ↦
        rw (got, made, do_msg)
          (after_answer-FullArrays r x.sent_ok va (do_msg xs) (answer-FullArray r x.buffer made)
            (do_msg-FullArrays xs))
  ]
]
