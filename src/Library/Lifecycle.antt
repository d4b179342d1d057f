-- ===== src/Library/Lifecycle.antt =====
-- lib/vsyncalter.cpp: an initialisation succeeds as a whole or leaves the library uninitialised.
use software_vsync_modulatio.Prelude.{
  ℕ, ◌≡◌, ◌≢◌, refl, sym, Bool, true, false, not, ◌||◌, Option, none, some, List, arith,
  Option-cases, Bool-cases, inl, inr,
}
use software_vsync_modulatio.Mmio.{Mmio}
use software_vsync_modulatio.Discovery.{
  Search, Status, going, failed, crashed, Found, find_enabled_phys,
}
use package.software_vsync_modulatio.Library.{
  Entry, Env, Globals, cleanup_phy_list, vsync_lib_uninit, enable_timestamps, finish_init,
  find_platform, vsync_lib_init,
}

-- Uninitialised, without a list of PHYs.
abbrev pub IsDown : {D : Type 0} → Globals D → Type 0
IsDown g = (g.is_init ≡ false) × (g.phy_list ≡ none)

-- Initialised, with a list of PHYs.
abbrev pub IsUp : {D : Type 0} → Globals D → Type 0
IsUp g = (g.is_init ≡ true) × ((ps : List Found) × (g.phy_list ≡ some ps))

zero_one : ◌≢◌ {A = Option ℕ} (some 0) (some 1)
zero_one e = ground (arith, e)

none_some : {n : ℕ} → ◌≢◌ {A = Option ℕ} none (some n)
none_some e = cc

module _ {D : Type 0} (mmio : Mmio D) where
  -- What holds after an initialisation.
  abbrev pub Settled : Option ℕ × Globals D → Type 0
  Settled r = (r.0 ≡ some 0 → IsUp r.1) × (r.0 ≡ some 1 → IsDown r.1)

  finish_init-Settled :
      (closes h_ts : Bool) (g : Globals D) (s : Search D) (st : Status)
      → s.status ≡ st
      → Settled (finish_init mmio closes h_ts g s)
  unfolding finish_init enable_timestamps vsync_lib_uninit cleanup_phy_list
  finish_init-Settled closes h_ts g s going e = elim (Bool-cases h_ts) [
    | inl h ↦ rw (e, h) (λ k. (refl, (s.phys, refl)), λ k. absurd (zero_one k))
    | inr h ↦ rw (e, h) (λ k. (refl, (s.phys, refl)), λ k. absurd (zero_one k))
  ]
  finish_init-Settled closes h_ts g s failed e =
      rw e (λ k. absurd (zero_one (sym k)), λ k. (refl, refl))
  finish_init-Settled closes h_ts g s crashed e =
      rw e (λ k. absurd (none_some k), λ k. absurd (none_some k))

  -- From an uninitialised library: an initialisation that returns 0 leaves it initialised with a
  -- list of PHYs, and one that returns 1, at whatever step, leaves it uninitialised and without a
  -- list.
  pub vsync_lib_init-Settled :
      (platform_table : List Entry) (env : Env) (closes dp_m_n h_ts : Bool) (g : Globals D)
      → IsDown g
      → Settled (vsync_lib_init mmio platform_table env closes dp_m_n h_ts g)
  unfolding vsync_lib_init
  vsync_lib_init-Settled platform_table env closes dp_m_n h_ts g down =
      elim (Bool-cases (not env.device_given || not env.opens)) [
        | inl bad ↦ rw (down.0, bad) (λ k. absurd (zero_one (sym k)), λ k. (refl, down.1))
        | inr good ↦ elim (Option-cases (find_platform platform_table env.device_id 0)) [
          | inl unknown ↦
              rw (down.0, good, unknown) (λ k. absurd (zero_one (sym k)), λ k. (down.0, down.1))
          | inr (found, known) ↦ elim (Bool-cases env.maps) [
            | inl m ↦
                rw (down.0, good, known, m)
                  (finish_init-Settled closes h_ts (record g { supported_platform = found.0 })
                    (find_enabled_phys mmio dp_m_n found.1 g.tables g.device) _ refl)
            | inr m ↦
                rw (down.0, good, known, m) (λ k. absurd (zero_one (sym k)), λ k. (down.0, down.1))
          ]
        ]
      ]
