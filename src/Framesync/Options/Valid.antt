-- ===== src/Framesync/Options/Valid.antt =====
-- The settings that the options leave are in range.
use software_vsync_modulatio.Prelude.{◌≡◌, refl, false, List, [], ◌∷◌, Bool-cases, ◌⊎◌, inl, inr}
use software_vsync_modulatio.Prelude.Int.{ℤ, pos, ltb_ℤ}
use software_vsync_modulatio.Framesync.Options.{
  Mode, Opt, DemoConfig, Parsed, primary, secondary, other, ready, exits, opt_m, opt_g, opt_if,
  opt_d, opt_p, opt_ttl, opt_pipe, opt_t, opt_s, opt_w, opt_height, opt_f, opt_v, opt_n, opt_c,
  opt_h, opt_unknown, defaults, set_option, parse_options,
}

abbrev pub IsBetween : ℤ → ℤ → ℤ → Type 0
IsBetween low high n = (ltb_ℤ n low ≡ false) × (ltb_ℤ high n ≡ false)

-- A mode, a pipe and an interval that are not negative, at least 10 ms ahead, a port and a TTL.
abbrev pub IsMode : Mode → Type 0
IsMode primary = Unit
IsMode secondary = Unit
IsMode other = ⊥

abbrev pub IsValid : DemoConfig → Type 0
IsValid c =
    IsMode c.mode
    × (ltb_ℤ c.pipe (pos 0) ≡ false)
    × (ltb_ℤ c.interval_ms (pos 0) ≡ false)
    × (ltb_ℤ c.schedule_ahead_ms (pos 10) ≡ false)
    × IsBetween (pos 1) (pos 65535) c.multicast_port
    × IsBetween (pos 1) (pos 255) c.multicast_ttl

-- The end of the loop: an exit with a status of 0 or 1, or valid settings.
abbrev pub EndsValid : Parsed → Type 0
EndsValid (ready c) = IsValid c
EndsValid (exits n) = (n ≡ 0) ⊎ (n ≡ 1)

set_option-EndsValid : (o : Opt) (c : DemoConfig) → IsValid c → EndsValid (set_option o c)
unfolding set_option
set_option-EndsValid (opt_m primary) c (m, p, i, s, port, ttl) = (tt, p, i, s, port, ttl)
set_option-EndsValid (opt_m secondary) c (m, p, i, s, port, ttl) = (tt, p, i, s, port, ttl)
set_option-EndsValid (opt_m other) c h = inr refl
set_option-EndsValid (opt_g t) c h = h
set_option-EndsValid (opt_p n) c (m, p, i, s, port, ttl) = elim (Bool-cases (ltb_ℤ n (pos 1))) [
  | inl low ↦ rw low (inr refl)
  | inr e ↦ elim (Bool-cases (ltb_ℤ (pos 65535) n)) [
    | inl high ↦ rw (e, high) (inr refl)
    | inr e' ↦ rw (e, e') (m, p, i, s, (e, e'), ttl)
  ]
]
set_option-EndsValid (opt_ttl n) c (m, p, i, s, port, ttl) = elim (Bool-cases (ltb_ℤ n (pos 1))) [
  | inl low ↦ rw low (inr refl)
  | inr e ↦ elim (Bool-cases (ltb_ℤ (pos 255) n)) [
    | inl high ↦ rw (e, high) (inr refl)
    | inr e' ↦ rw (e, e') (m, p, i, s, port, (e, e'))
  ]
]
set_option-EndsValid (opt_if t) c h = h
set_option-EndsValid (opt_pipe n) c (m, p, i, s, port, ttl) = elim (Bool-cases (ltb_ℤ n (pos 0))) [
  | inl low ↦ rw low (inr refl)
  | inr e ↦ rw e (m, e, i, s, port, ttl)
]
set_option-EndsValid (opt_d t) c h = h
set_option-EndsValid (opt_t n) c (m, p, i, s, port, ttl) = elim (Bool-cases (ltb_ℤ n (pos 0))) [
  | inl low ↦ rw low (inr refl)
  | inr e ↦ rw e (m, p, e, s, port, ttl)
]
set_option-EndsValid (opt_s n) c (m, p, i, s, port, ttl) = elim (Bool-cases (ltb_ℤ n (pos 10))) [
  | inl low ↦ rw low (inr refl)
  | inr e ↦ rw e (m, p, i, e, port, ttl)
]
set_option-EndsValid opt_f c h = h
set_option-EndsValid (opt_w n) c h = h
set_option-EndsValid (opt_height n) c h = h
set_option-EndsValid opt_v c h = h
set_option-EndsValid opt_n c h = h
set_option-EndsValid opt_c c h = h
set_option-EndsValid opt_h c h = inl refl
set_option-EndsValid opt_unknown c h = inr refl

-- One turn, and what comes after it.
after-EndsValid :
    (rest : DemoConfig → Parsed)
    → ((c : DemoConfig) → IsValid c → EndsValid (rest c))
    → (r : Parsed) → EndsValid r
    → EndsValid (elim r [ ready c ↦ rest c | exits n ↦ exits n ])
after-EndsValid rest valid (ready c) h = valid c h
after-EndsValid rest valid (exits n) h = h

parse_options-from : (os : List Opt) (c : DemoConfig) → IsValid c → EndsValid (parse_options os c)
unfolding parse_options
parse_options-from [] c h = h
parse_options-from (o ∷ os) c h =
    after-EndsValid (parse_options os) (parse_options-from os) (set_option o c)
      (set_option-EndsValid o c h)

-- Whatever options are given: the loop exits with 0 or 1, or it leaves one of the two modes, a pipe and
-- an interval that are not negative, a schedule of at least 10 ms ahead, a port from 1 to 65535 and a
-- TTL from 1 to 255.
pub parse_options-EndsValid : (os : List Opt) → EndsValid (parse_options os defaults)
unfolding defaults
parse_options-EndsValid os =
    parse_options-from os defaults (tt, refl, refl, refl, (refl, refl), (refl, refl))
