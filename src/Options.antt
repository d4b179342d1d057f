-- ===== src/Options.antt =====
-- swgenlock/main.cpp: the list of pipes on the command line. A text is the list of its bytes, none
-- of which is 0.
pub mod Sorted
pub mod RoundTrip
use software_vsync_modulatio.Prelude.{
  ℕ, zero, suc, ◌+◌, ◌-◌, ◌*◌, ◌/◌, ◌%◌, Bool, true, false, not, Option, none, some, List, [], ◌∷◌,
  ◌++◌, ◌==◌, ◌&&◌, ◌||◌, ltb, leb, if◌then◌else◌,
}
use software_vsync_modulatio.Prelude.Int.{ℤ, pos, negsuc, pos_part, ltb_ℤ}
use software_vsync_modulatio.Prelude.Signed.{neg_ℕ}

abbrev pub Text : Type 0
Text = List ℕ

abbrev is_empty : {A : Type 0} → List A → Bool
is_empty [] = true
is_empty (x ∷ xs) = false

-- The decimal digits of a number in front of `rest`; a number has fewer digits than `fuel`.
pub decimal_loop : ℕ → ℕ → Text → Text
decimal_loop zero n rest = rest
decimal_loop (suc fuel) n rest =
    let more = decimal_loop fuel (n / 10) ((b'0' + n % 10) ∷ rest) in
    if n / 10 == 0 then (b'0' + n % 10) ∷ rest else more

pub join_rest : List ℕ → Text
unfolding decimal_loop
join_rest [] = []
join_rest (v ∷ vs) = b',' ∷ (decimal_loop 20 v [] ++ join_rest vs)

-- `join_ints`, of numbers that are not negative and have at most twenty digits.
pub join_ints : List ℕ → Text
unfolding join_rest decimal_loop
join_ints [] = []
join_ints (v ∷ vs) = decimal_loop 20 v [] ++ join_rest vs

-- The characters that `trim` takes off.
pub is_blank : ℕ → Bool
is_blank c = c == 32 || c == 9 || c == 10 || c == 13

pub trim_start : Text → Text
unfolding is_blank
trim_start [] = []
trim_start (c ∷ cs) = if is_blank c then trim_start cs else c ∷ cs

pub trim_end : Text → Text
unfolding is_blank
trim_end [] = []
trim_end (c ∷ cs) = let rest = trim_end cs in if is_empty rest && is_blank c then [] else c ∷ rest

pub trim : Text → Text
unfolding trim_start trim_end
trim s = trim_end (trim_start s)

-- The fields between commas, as `std::getline` gives them; an empty last one, which it does not
-- give, is skipped like every empty one.
pub split_commas : Text → List Text
split_commas [] = [] ∷ []
split_commas (c ∷ cs) = elim (split_commas cs) [
  | [] ↦ [] ∷ []
  | t ∷ ts ↦ if c == b',' then [] ∷ (t ∷ ts) else (c ∷ t) ∷ ts
]

abbrev is_digit : ℕ → Bool
is_digit c = leb b'0' c && leb c b'9'

-- The digits in front, as a number, and what is left.
pub digits : ℕ → Text → ℕ × Text
digits n [] = (n, [])
digits n (c ∷ cs) =
    let rest = digits (n * 10 + (c - b'0')) cs in if is_digit c then rest else (n, c ∷ cs)

unfoldable pub skip_space : Text → Text
skip_space [] = []
skip_space (c ∷ cs) = if c == 32 || leb 9 c && leb c 13 then skip_space cs else c ∷ cs

-- A sign, if there is one: whether it is a minus.
unfoldable pub sign : Text → Bool × Text
sign [] = (false, [])
sign (c ∷ cs) = if c == b'-' then (true, cs) else if c == b'+' then (false, cs) else (false, c ∷ cs)

-- `strtol(tok, &endp, 10)` on a whole token: `none` when `*endp` is not 0. Where `long` is too small
-- the value of C is its end, which is out of range for a pipe as well.
pub strtol : Text → Option ℤ
unfolding digits skip_space sign
strtol tok =
    let (minus, cs) = sign (skip_space tok) in
    let (n, rest) = digits 0 cs in
    if is_empty cs || not (is_empty rest) then none else some (if minus then neg_ℕ n else pos n)

-- `uniq.insert`; a `std::set` is in order.
pub insert : ℕ → List ℕ → List ℕ
insert v [] = v ∷ []
insert v (x ∷ xs) = if ltb v x then v ∷ (x ∷ xs) else if v == x then x ∷ xs else x ∷ insert v xs

-- One field of the list.
pub parse_token : Text → List ℕ → Option (List ℕ)
unfolding trim strtol insert
parse_token field uniq =
    let tok = trim field in
    if is_empty tok then some uniq else elim (strtol tok) [
      | none ↦ none
      | some val ↦
          if ltb_ℤ val (pos 0) || ltb_ℤ (pos 3) val then none else some (insert (pos_part val) uniq)
    ]

pub parse_tokens : List Text → List ℕ → Option (List ℕ)
unfolding parse_token
parse_tokens [] uniq = some uniq
parse_tokens (field ∷ fields) uniq = elim (parse_token field uniq) [
  | none ↦ none
  | some uniq' ↦ parse_tokens fields uniq'
]

-- `s == "4"`
pub is_four : Text → Bool
is_four [] = false
is_four (c ∷ cs) = c == b'4' && is_empty cs

-- `std::sort` finds the list in order.
unfoldable pub parse_pipes_arg : Text → Option (List ℕ)
unfolding trim split_commas parse_tokens is_four
parse_pipes_arg arg =
    let s = trim arg in
    if is_empty s
    then none
    else (if is_four s then some (0 ∷ 1 ∷ 2 ∷ 3 ∷ []) else elim (parse_tokens (split_commas s) []) [
      | none ↦ none
      | some uniq ↦ if is_empty uniq then none else some uniq
    ])
