-- ===== src/Discovery/Exclusive.antt =====
-- lib/vsyncalter.cpp: the whole search gives each PHY a pipe and a PLL of its own.
use software_vsync_modulatio.Prelude.{
  ℕ, suc, ◌≡◌, ◌≢◌, refl, Bool, true, false, List, [], ◌∷◌, Option-cases, Bool-cases, inl, inr,
  ◌==◌, ◌&&◌, bit_and,
}
use software_vsync_modulatio.Bits.{bit, getbits_val}
use software_vsync_modulatio.Mmio.{Mmio}
use software_vsync_modulatio.Discovery.Distinct.{
  AllApart, Inv, Inv-later, stop-Inv, push-Inv, new_combo-Inv, new_dkl-Inv,
}
use package.software_vsync_modulatio.Discovery.{
  Kind, dkl, combo, m_n, c10, c20, unsupported, DdiSel, Platform, Tables, going, failed, is_going,
  Search, push, new_phy, new_dkl, new_combo, is_dp, match_ddi, visit, visit_all, find_enabled_phys,
}

-- A PHY of a class without a table of PLLs.
abbrev HasNoTable : Kind → Type 0
HasNoTable k = (k ≢ combo) × (k ≢ dkl)

failed_stops : is_going failed ≡ false
unfolding is_going
failed_stops = refl

on : is_going going ≡ true
unfolding is_going
on = refl

module _ {D : Type 0} (mmio : Mmio D) where
  open mmio use {read_offset_dword}

  push_other-Inv :
      (k : Kind) (i : ℕ) (s : Search D) (d : D)
      → HasNoTable k
      → Inv i s
      → is_going s.status ≡ true
      → Inv (suc i) (push mmio (record { kind = k; pll = 0; pipe = i }) s.tables d s)
  push_other-Inv k i s d none_of inv g =
      push-Inv mmio i s (record { kind = k; pll = 0; pipe = i }) s.tables d inv g
        (refl, λ e. absurd (none_of.0 e), λ e. absurd (none_of.1 e)) (λ m h. h, λ m h. h)
        (λ e. absurd (none_of.0 e), λ e. absurd (none_of.1 e))

  new_phy-Inv :
      (first : ℕ) (k : Kind) (dsel : DdiSel) (i : ℕ) (s : Search D)
      → dsel.phy ≡ k
      → Inv i s
      → is_going s.status ≡ true
      → Inv (suc i) (new_phy mmio first dsel i s)
  unfolding new_phy new_dkl new_combo
  new_phy-Inv first dkl dsel i s e inv g = rw e (new_dkl-Inv mmio dsel first i s inv g)
  new_phy-Inv first combo dsel i s e inv g = rw e (new_combo-Inv mmio dsel i s inv g)
  new_phy-Inv first c10 dsel i s e inv g =
      rw e (push_other-Inv c10 i s s.device (λ k. cc, λ k. cc) inv g)
  new_phy-Inv first c20 dsel i s e inv g =
      rw e (push_other-Inv c20 i s s.device (λ k. cc, λ k. cc) inv g)
  new_phy-Inv first m_n dsel i s e inv g =
      rw e (stop-Inv i s failed s.tables s.device inv failed_stops)
  new_phy-Inv first unsupported dsel i s e inv g =
      rw e (stop-Inv i s failed s.tables s.device inv failed_stops)

  moved-Inv : (i : ℕ) (s : Search D) (d : D) → Inv i s → Inv i (record s { device = d })
  moved-Inv i s d inv = record { apart = inv.apart; below = inv.below; in_use = inv.in_use }

  visit-Inv :
      (with_m_n : Bool) (plat : Platform) (addr i : ℕ) (s : Search D)
      → Inv i s
      → is_going s.status ≡ true
      → Inv (suc i) (visit mmio with_m_n plat addr i s)
  unfolding visit
  visit-Inv with_m_n plat addr i s inv g = elim (Bool-cases (bit_and val (bit 31) == 0)) [
    | inl e ↦ rw e (Inv-later i s' (moved-Inv i s d inv))
    | inr e ↦ elim (Option-cases (match_ddi mmio plat.ds (getbits_val val 30 27))) [
      | inl unmatched ↦ rw (e, unmatched) (Inv-later i s' (moved-Inv i s d inv))
      | inr (dsel, got) ↦ elim (Bool-cases (with_m_n && is_dp mmio val)) [
        | inl dp ↦
            rw (e, got, dp) (push_other-Inv m_n i s' d (λ k. cc, λ k. cc) (moved-Inv i s d inv) g)
        | inr other ↦
            rw (e, got, other)
              (new_phy-Inv plat.first_dkl_phy_loc dsel.phy dsel i s' refl (moved-Inv i s d inv) g)
      ]
    ]
  ]
    where
      val : ℕ
      val = (read_offset_dword addr s.device).0

      d : D
      d = (read_offset_dword addr s.device).1

      s' : Search D
      s' = record s { device = d }

  visit_all-AllApart :
      (with_m_n : Bool) (plat : Platform) (addrs : List ℕ) (i : ℕ) (s : Search D)
      → Inv i s
      → is_going s.status ≡ true
      → AllApart (visit_all mmio with_m_n plat addrs i s).phys
  unfolding visit_all
  visit_all-AllApart with_m_n plat [] i s inv g = inv.apart
  visit_all-AllApart with_m_n plat (addr ∷ addrs) i s inv g =
      elim (Bool-cases (is_going (visit mmio with_m_n plat addr i s).status)) [
        | inl more ↦ rw more (
            visit_all-AllApart with_m_n plat addrs (suc i) (visit mmio with_m_n plat addr i s)
              (visit-Inv with_m_n plat addr i s inv g) more)
        | inr off ↦ rw off (visit-Inv with_m_n plat addr i s inv g).apart
      ]

  -- Whatever the device holds and which PLLs are in use: no two PHYs that find_enabled_phys puts
  -- into its list have the same pipe, nor, both Combo or both Dekel, the same PLL, also if the
  -- search fails halfway.
  pub find_enabled_phys-AllApart :
      (with_m_n : Bool) (plat : Platform) (tables : Tables) (d : D)
      → AllApart (find_enabled_phys mmio with_m_n plat tables d).phys
  unfolding find_enabled_phys
  find_enabled_phys-AllApart with_m_n plat tables d =
      visit_all-AllApart with_m_n plat _ 0 _ (record { apart = tt; below = tt; in_use = λ e. tt })
        on
