-- ===== src/Options/RoundTrip.antt =====
-- The list that is printed is read back.
use software_vsync_modulatio.Prelude.{
  ℕ, ◌≡◌, refl, Bool, true, false, ◌||◌, some, List, [], ◌∷◌, ◌++◌, if◌then◌else◌,
}
use software_vsync_modulatio.Options.{join_ints, parse_pipes_arg}

-- The pipes that are chosen, in order.
abbrev pub chosen : Bool → Bool → Bool → Bool → List ℕ
chosen a b c d =
    (if a then 0 ∷ [] else [])
    ++ ((if b then 1 ∷ [] else []) ++ ((if c then 2 ∷ [] else []) ++ (if d then 3 ∷ [] else [])))

-- For every non-empty selection of the pipes 0 to 3, parsing the list that join_ints prints gives
-- the selection back.
pub parse_pipes_arg-join_ints :
    (a b c d : Bool)
    → (a || (b || (c || d))) ≡ true
    → parse_pipes_arg (join_ints (chosen a b c d)) ≡ some (chosen a b c d)
unfolding join_ints parse_pipes_arg
parse_pipes_arg-join_ints true true true true h = refl
parse_pipes_arg-join_ints true true true false h = refl
parse_pipes_arg-join_ints true true false true h = refl
parse_pipes_arg-join_ints true true false false h = refl
parse_pipes_arg-join_ints true false true true h = refl
parse_pipes_arg-join_ints true false true false h = refl
parse_pipes_arg-join_ints true false false true h = refl
parse_pipes_arg-join_ints true false false false h = refl
parse_pipes_arg-join_ints false true true true h = refl
parse_pipes_arg-join_ints false true true false h = refl
parse_pipes_arg-join_ints false true false true h = refl
parse_pipes_arg-join_ints false true false false h = refl
parse_pipes_arg-join_ints false false true true h = refl
parse_pipes_arg-join_ints false false true false h = refl
parse_pipes_arg-join_ints false false false true h = refl
parse_pipes_arg-join_ints false false false false h = cc
