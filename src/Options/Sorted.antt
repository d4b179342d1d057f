-- ===== src/Options/Sorted.antt =====
-- What the list of pipes holds: pipes from 0 to 3, each once and in order.
use mathlib.Core.Path.{subst}
use software_vsync_modulatio.Prelude.{
  ℕ, suc, ◌≤◌, ◌≡◌, ◌≢◌, ap, sym, false, ◌||◌, Option, none, some, List, [], ◌∷◌, inl, inr,
  Bool-cases, Option-cases, ltb, ◌==◌, arith,
}
use software_vsync_modulatio.Prelude.Int.{pos, pos_part, ltb_ℤ}
use software_vsync_modulatio.Options.{
  Text, is_empty, insert, parse_token, parse_tokens, parse_pipes_arg, is_four, trim, split_commas,
  strtol,
}

-- In order, each at least `low` and at most 3.
abbrev pub Ascending : ℕ → List ℕ → Type 0
Ascending low [] = Unit {0}
Ascending low (x ∷ xs) = (low ≤ x) × (x ≤ 3) × Ascending (suc x) xs

insert-Ascending :
    (low v : ℕ) (xs : List ℕ) → low ≤ v → v ≤ 3 → Ascending low xs → Ascending low (insert v xs)
unfolding insert
insert-Ascending low v [] h k a = (h, k, tt)
insert-Ascending low v (x ∷ xs) h k (p, q, r) = elim (Bool-cases (ltb v x)) [
  | inl e ↦ rw e (h, k, (ground arith, q, r))
  | inr e ↦ elim (Bool-cases (v == x)) [
    | inl e' ↦ rw (e, e') (p, q, r)
    | inr e' ↦ rw (e, e') (p, q, insert-Ascending (suc x) v xs (ground arith) k r)
  ]
]

abbrev AreAscending : Option (List ℕ) → Type 0
AreAscending none = Unit {0}
AreAscending (some out) = Ascending 0 out

parse_token-Ascending :
    (field : Text) (uniq : List ℕ) → Ascending 0 uniq → AreAscending (parse_token field uniq)
unfolding parse_token
parse_token-Ascending field uniq a = elim (Bool-cases (is_empty (trim field))) [
  | inl e ↦ rw e a
  | inr e ↦ elim (Option-cases (strtol (trim field))) [
    | inl n ↦ rw (e, n) tt
    | inr (val, n) ↦ elim (Bool-cases (ltb_ℤ val (pos 0) || ltb_ℤ (pos 3) val)) [
      | inl o ↦ rw (e, n, o) tt
      | inr o ↦ rw (e, n, o) (insert-Ascending 0 (pos_part val) uniq (omega arith) (ground arith) a)
    ]
  ]
]

-- The loop goes on with what a field gives.
parse_tokens-next :
    (field : Text) (fields : List Text) (uniq : List ℕ) (o : Option (List ℕ))
    → parse_token field uniq ≡ o
    → parse_tokens (field ∷ fields) uniq
      ≡ elim o [ none ↦ none | some uniq' ↦ parse_tokens fields uniq' ]
unfolding parse_tokens
parse_tokens-next field fields uniq o e =
    ap (λ (p : Option (List ℕ)). elim p [ none ↦ none | some uniq' ↦ parse_tokens fields uniq' ]) e

parse_tokens-Ascending :
    (fields : List Text) (uniq : List ℕ)
    → Ascending 0 uniq
    → AreAscending (parse_tokens fields uniq)
parse_tokens-Ascending [] uniq a = unfold parse_tokens in a
parse_tokens-Ascending (field ∷ fields) uniq a = elim (Option-cases (parse_token field uniq)) [
  | inl n ↦ subst AreAscending (sym (parse_tokens-next field fields uniq none n)) tt
  | inr (uniq', n) ↦ subst AreAscending (sym (parse_tokens-next field fields uniq (some uniq') n)) (
      parse_tokens-Ascending fields uniq'
        (subst AreAscending n (parse_token-Ascending field uniq a)))
]

not_empty : (xs : List ℕ) → is_empty xs ≡ false → xs ≢ []
not_empty [] h p = cc
not_empty (x ∷ xs) h p = cc

abbrev AreChosen : Option (List ℕ) → Type 0
AreChosen none = Unit {0}
AreChosen (some out) = Ascending 0 out × (out ≢ [])

parse-AreChosen : (arg : Text) → AreChosen (parse_pipes_arg arg)
unfolding parse_pipes_arg
parse-AreChosen arg = elim (Bool-cases (is_empty (trim arg))) [
  | inl e ↦ rw e tt
  | inr e ↦ elim (Bool-cases (is_four (trim arg))) [
    | inl four ↦ rw (e, four) (omega arith, λ p. cc)
    | inr four ↦ elim (Option-cases (parse_tokens (split_commas (trim arg)) [])) [
      | inl n ↦ rw (e, four, n) tt
      | inr (uniq, n) ↦ elim (Bool-cases (is_empty uniq)) [
        | inl none_left ↦ rw (e, four, n, none_left) tt
        | inr some_left ↦
            rw (e, four, n, some_left)
              (
                subst AreAscending n (parse_tokens-Ascending (split_commas (trim arg)) [] tt),
                λ p. not_empty uniq some_left p,
              )
      ]
    ]
  ]
]

pub parse_pipes_arg-Ascending :
    (arg : Text) (out : List ℕ) → parse_pipes_arg arg ≡ some out → Ascending 0 out × (out ≢ [])
parse_pipes_arg-Ascending arg out h = subst AreChosen h (parse-AreChosen arg)
