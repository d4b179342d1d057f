-- ===== src/Primary/Collector.antt =====
-- The rolling buffer holds the newest timestamps.
use mathlib.Core.List.{append-nil, append_assoc}
use native.Mathlib.Nat.{zero-add}
use software_vsync_modulatio.Prelude.{
  ℕ, zero, suc, ◌+◌, ◌-◌, ◌≤◌, ◌<◌, ◌≡◌, refl, sym, ap, ◌∙◌, Option, none, some, List, [], ◌∷◌,
  ◌++◌, ltb, leb, length, drop, length-append, length-drop, if◌then◌else◌, arith, min, true, false,
  Bool-cases, inl, inr,
}
use software_vsync_modulatio.Primary.{
  pop_front, collect_one, vsync_collector_thread, get_last_vsyncs,
}

-- The last `n` elements, or all if there are fewer.
abbrev pub last_n : ℕ → List ℕ → List ℕ
last_n n xs = drop (length xs - n) xs

-- The timestamps that were captured.
abbrev pub captured : List (Option ℕ) → List ℕ
captured [] = []
captured (none ∷ ts) = captured ts
captured (some t ∷ ts) = t ∷ captured ts

drop-nil : (n : ℕ) → drop {A = ℕ} n [] ≡ []
drop-nil zero = refl
drop-nil (suc n) = refl

drop-append : (n : ℕ) (xs ys : List ℕ) → n ≤ length xs → drop n (xs ++ ys) ≡ drop n xs ++ ys
drop-append zero xs ys h = refl
drop-append (suc n) [] ys h = absurd (omega arith)
drop-append (suc n) (x ∷ xs) ys h = drop-append n xs ys (omega arith)

drop-drop : (j n : ℕ) (xs : List ℕ) → drop j (drop n xs) ≡ drop (n + j) xs
drop-drop j zero xs = ap (λ (k : ℕ). drop k xs) (sym (zero-add j))
drop-drop j (suc n) [] = drop-nil j ∙ sym (drop-nil (suc n + j))
drop-drop j (suc n) (x ∷ xs) =
    drop-drop j n xs
    ∙ ap (λ (k : ℕ). drop k (x ∷ xs)) {x = suc (n + j)} {y = suc n + j} (omega arith)

drop-drop_one : (n : ℕ) (xs : List ℕ) → pop_front (drop n xs) ≡ drop (suc n) xs
drop-drop_one zero [] = refl
drop-drop_one zero (x ∷ xs) = refl
drop-drop_one (suc n) [] = refl
drop-drop_one (suc n) (x ∷ xs) = drop-drop_one n xs

drop_at : (xs : List ℕ) {m n : ℕ} → m ≡ n → drop m xs ≡ drop n xs
drop_at xs e = ap (λ (k : ℕ). drop k xs) e

length-last_n : (n : ℕ) (xs : List ℕ) → length (last_n n xs) ≡ min n (length xs)
length-last_n n xs = omega (arith, length-drop (length xs - n) xs)

collect_one-last_n :
    (m : ℕ) (seen : List ℕ) (t : ℕ)
    → 0 < m
    → collect_one m (last_n m seen) t ≡ last_n m (seen ++ (t ∷ []))
unfolding collect_one
collect_one-last_n m seen t pos = elim (Bool-cases (leb m (length (last_n m seen)))) [
  | inl full ↦ rw full (
      ap (λ (b : List ℕ). b ++ (t ∷ [])) (drop-drop_one (length seen - m) seen)
      ∙ sym (drop-append (suc (length seen - m)) seen (t ∷ []) (fits full))
      ∙ drop_at (seen ++ (t ∷ [])) (next full))
  | inr room ↦ rw room (
      sym (drop-append (length seen - m) seen (t ∷ []) (omega arith))
      ∙ drop_at (seen ++ (t ∷ [])) (same room))
]
  where
    fits : leb m (length (last_n m seen)) ≡ true → suc (length seen - m) ≤ length seen
    fits e = ground (arith, length-last_n m seen)

    next :
        leb m (length (last_n m seen)) ≡ true
        → suc (length seen - m) ≡ length (seen ++ (t ∷ [])) - m
    next e = ground (arith, length-last_n m seen, length-append seen (t ∷ []))

    same : leb m (length (last_n m seen)) ≡ false → length seen - m ≡ length (seen ++ (t ∷ [])) - m
    same e = ground (arith, length-last_n m seen, length-append seen (t ∷ []))

collector-from :
    (m : ℕ) (events : List (Option ℕ)) (seen : List ℕ)
    → 0 < m
    → vsync_collector_thread m events (last_n m seen) ≡ last_n m (seen ++ captured events)
unfolding vsync_collector_thread
collector-from m [] seen pos = ap (last_n m) (sym (append-nil seen))
collector-from m (none ∷ rest) seen pos = collector-from m rest seen pos
collector-from m (some t ∷ rest) seen pos =
    ap (vsync_collector_thread m rest) (collect_one-last_n m seen t pos)
    ∙ collector-from m rest (seen ++ (t ∷ [])) pos
    ∙ ap (last_n m) (append_assoc seen (t ∷ []) (captured rest))

-- For a positive capacity and whatever captures fail, the buffer holds the last timestamps
-- captured up to its capacity, oldest first.
pub vsync_collector_thread-last_n :
    (max_count : ℕ) (events : List (Option ℕ))
    → 0 < max_count
    → vsync_collector_thread max_count events [] ≡ last_n max_count (captured events)
vsync_collector_thread-last_n m events pos =
    ap (vsync_collector_thread m events) (sym (drop-nil (0 - m))) ∙ collector-from m events [] pos

last_n-last_n :
    (k m : ℕ) (xs : List ℕ) → k ≤ m → k ≤ length xs → last_n k (last_n m xs) ≡ last_n k xs
last_n-last_n k m xs h p =
    drop-drop (length (last_n m xs) - k) (length xs - m) xs
    ∙ drop_at xs (omega (arith, length-last_n m xs))

-- For a positive capacity and a count within it, a reader of the rolling buffer gets the newest
-- timestamps captured, exactly when there are so many, and else nothing.
pub get_last_vsyncs-collector :
    (max_count count : ℕ) (events : List (Option ℕ))
    → 0 < max_count
    → count ≤ max_count
    → get_last_vsyncs (vsync_collector_thread max_count events []) count ≡ (
        if ltb (length (captured events)) count
        then none
        else some (last_n count (captured events)))
unfolding get_last_vsyncs
get_last_vsyncs-collector m k events pos h =
    rw (vsync_collector_thread-last_n m events pos)
      (elim (Bool-cases (ltb (length (captured events)) k)) [
        | inl few ↦ ground (arith, length-last_n m (captured events))
        | inr enough ↦
            ground (arith, length-last_n m (captured events), last_n-last_n k m (captured events) h)
      ])
