-- ===== src/Discovery/Distinct.antt =====
-- lib/vsyncalter.cpp: no two PHYs share a PLL or a pipe.
use software_vsync_modulatio.Prelude.{
  ℕ, suc, ◌+◌, ◌<◌, ◌≡◌, ◌≢◌, refl, ap, Bool, true, false, not, List, [], ◌∷◌, ◌++◌, arith,
  Bool-cases, inl, inr, ◌==◌, ◌||◌, leb, ltb, ◌-◌, bit_and,
}
use software_vsync_modulatio.Bits.{bit, getbits_val}
use software_vsync_modulatio.Mmio.{Mmio}
use software_vsync_modulatio.Dkl.{dkl_pll_div0_addr}
use package.software_vsync_modulatio.Discovery.{
  dkl, combo, crashed, failed, DdiSel, Found, Tables, mark, Status, is_going, Search, push,
  new_combo, new_dkl,
}

-- The PLL of a found PHY is marked in the table of its class.
abbrev pub InUse : Tables → Found → Type 0
InUse t p =
    (p.kind ≡ combo → t.combo_table p.pll ≡ true) × (p.kind ≡ dkl → t.dkl_table p.pll ≡ true)

-- Two found PHYs have different pipes, and different PLLs where they are both Combo or both Dekel.
abbrev pub Apart : Found → Found → Type 0
Apart p q =
    (p.pipe ≢ q.pipe)
    × (p.kind ≡ combo → q.kind ≡ combo → p.pll ≢ q.pll)
    × (p.kind ≡ dkl → q.kind ≡ dkl → p.pll ≢ q.pll)

abbrev pub Each : (Found → Type 0) → List Found → Type 0
Each P [] = Unit
Each P (p ∷ ps) = P p × Each P ps

abbrev pub AllApart : List Found → Type 0
AllApart [] = Unit
AllApart (p ∷ ps) = Each (Apart p) ps × AllApart ps

Each-map :
    {P Q : Found → Type 0} (f : (p : Found) → P p → Q p) (ps : List Found) → Each P ps → Each Q ps
Each-map f [] h = tt
Each-map f (p ∷ ps) h = (f p h.0, Each-map f ps h.1)

Each-append :
    (P : Found → Type 0) (ps : List Found) (q : Found) → Each P ps → P q → Each P (ps ++ (q ∷ []))
Each-append P [] q h k = (k, tt)
Each-append P (p ∷ ps) q h k = (h.0, Each-append P ps q h.1 k)

AllApart-append :
    (ps : List Found) (q : Found)
    → AllApart ps
    → Each (λ p. Apart p q) ps
    → AllApart (ps ++ (q ∷ []))
AllApart-append [] q h k = (tt, tt)
AllApart-append (p ∷ ps) q h k = (Each-append (Apart p) ps q h.0 k.0, AllApart-append ps q h.1 k.1)

-- A PHY may join if its pipe is the current one and its PLL is not in use.
abbrev Fresh : Tables → ℕ → Found → Type 0
Fresh t i q =
    (q.pipe ≡ i)
    × (q.kind ≡ combo → t.combo_table q.pll ≡ false)
    × (q.kind ≡ dkl → t.dkl_table q.pll ≡ false)

-- What is in use stays in use.
abbrev Grows : Tables → Tables → Type 0
Grows t t' =
    ((n : ℕ) → t.combo_table n ≡ true → t'.combo_table n ≡ true)
    × ((n : ℕ) → t.dkl_table n ≡ true → t'.dkl_table n ≡ true)

-- What holds before the pipe `i` is visited.
pub record Inv {D : Type 0} (i : ℕ) (s : Search D) : Type 0 where
  pub apart : AllApart s.phys
  pub below : Each (λ p. p.pipe < i) s.phys
  pub in_use : is_going s.status ≡ true → Each (InUse s.tables) s.phys

clash : (f : ℕ → Bool) (m n : ℕ) → f m ≡ true → f n ≡ false → m ≢ n
clash f m n h k e = ground (arith, h, k, ap f e)

Fresh-Apart :
    (t : Tables) (i : ℕ) (q : Found)
    → Fresh t i q
    → (p : Found) → (p.pipe < i) × InUse t p
    → Apart p q
Fresh-Apart t i q fr p h = (
  λ e. ground (arith, e, h.0, fr.0),
  λ a b. clash t.combo_table p.pll q.pll (h.1.0 a) (fr.1 b),
  λ a b. clash t.dkl_table p.pll q.pll (h.1.1 a) (fr.2 b),
)

both : (P Q : Found → Type 0) (ps : List Found) → Each P ps → Each Q ps → Each (λ p. P p × Q p) ps
both P Q [] h k = tt
both P Q (p ∷ ps) h k = ((h.0, k.0), both P Q ps h.1 k.1)

pub push-Inv :
    {D : Type 0} (mmio : Mmio D) (i : ℕ) (s : Search D) (q : Found) (t' : Tables) (d : D)
    → Inv i s
    → is_going s.status ≡ true
    → Fresh s.tables i q
    → Grows s.tables t'
    → InUse t' q
    → Inv (suc i) (push mmio q t' d s)
push-Inv mmio i s q t' d inv g fr grows u = record {
  apart = AllApart-append s.phys q inv.apart (
      Each-map (Fresh-Apart s.tables i q fr) s.phys
        (both (λ p. p.pipe < i) (InUse s.tables) s.phys inv.below (inv.in_use g)));
  below =
      Each-append (λ p. p.pipe < suc i) s.phys q
        (Each-map {P = λ p. p.pipe < i} (λ p h. omega (arith, h)) s.phys inv.below)
        (omega (arith, fr.0));
  in_use = λ e.
      Each-append (InUse t') s.phys q
        (Each-map {P = InUse s.tables}
          (λ p h. (λ k. grows.0 p.pll (h.0 k), λ k. grows.1 p.pll (h.1 k))) s.phys (inv.in_use g))
        u;
}

pub Inv-later : {D : Type 0} (i : ℕ) (s : Search D) → Inv i s → Inv (suc i) s
Inv-later i s inv = record {
  apart = inv.apart;
  below = Each-map {P = λ p. p.pipe < i} (λ p h. omega (arith, h)) s.phys inv.below;
  in_use = inv.in_use;
}

combo_dekel : combo ≢ dkl
combo_dekel e = cc

dekel_combo : dkl ≢ combo
dekel_combo e = cc

mark_keeps : (f : ℕ → Bool) (n m : ℕ) → f m ≡ true → mark f n true m ≡ true
mark_keeps f n m h = ground arith

mark_self : (f : ℕ → Bool) (n : ℕ) → mark f n true n ≡ true
mark_self f n = ground arith

or_false : (a b : Bool) → (a || b) ≡ false → b ≡ false
or_false true b h = absurd (ground (arith, h))
or_false false b h = h

pub stop-Inv :
    {D : Type 0} (i : ℕ) (s : Search D) (st : Status) (t : Tables) (d : D)
    → Inv i s
    → is_going st ≡ false
    → Inv (suc i) (record s { status = st; tables = t; device = d })
stop-Inv i s st t d inv g = record {
  apart = inv.apart;
  below = (Inv-later i s inv).below;
  in_use = λ e. absurd (ground (arith, g, e));
}

module _ {D : Type 0} (mmio : Mmio D) where
  open mmio use {read_offset_dword}

  pub new_combo-Inv :
      (dsel : DdiSel) (i : ℕ) (s : Search D)
      → Inv i s
      → is_going s.status ≡ true
      → Inv (suc i) (new_combo mmio dsel i s)
  unfolding new_combo is_going
  new_combo-Inv dsel i s inv g = elim (Bool-cases (off || (leb 4 n || s.tables.combo_table n))) [
    | inl e ↦ rw e (stop-Inv i s crashed s.tables d inv refl)
    | inr e ↦ rw e (
        push-Inv mmio i s (record { kind = combo; pll = n; pipe = i })
          (record s.tables { combo_table = mark s.tables.combo_table n true }) d inv g
          (
            refl,
            λ k. or_false (leb 4 n) (s.tables.combo_table n) (or_false off _ e),
            λ k. absurd (combo_dekel k),
          )
          (λ m. mark_keeps s.tables.combo_table n m, λ m h. h)
          (λ k. mark_self s.tables.combo_table n, λ k. absurd (combo_dekel k)))
  ]
    where
      dpclk : ℕ
      dpclk = (read_offset_dword dsel.dpclk s.device).0

      d : D
      d = (read_offset_dword dsel.dpclk s.device).1

      off : Bool
      off = not (bit_and dpclk (bit dsel.clock_bit) == 0)

      n : ℕ
      n = getbits_val dpclk (dsel.mux_select_low_bit + 1) dsel.mux_select_low_bit

  pub new_dkl-Inv :
      (dsel : DdiSel) (first i : ℕ) (s : Search D)
      → Inv i s
      → is_going s.status ≡ true
      → Inv (suc i) (new_dkl mmio dsel first i s)
  unfolding new_dkl is_going
  new_dkl-Inv dsel first i s inv g = elim (Bool-cases (ltb dsel.de_clk first)) [
    | inl e ↦ rw e (
        stop-Inv i s failed (record s.tables { dkl_table = mark s.tables.dkl_table 0 false })
          s.device inv refl)
    | inr e ↦ elim (Bool-cases (val == 0xFFFFFFFF || s.tables.dkl_table n)) [
      | inl e' ↦
          rw (e, e')
            (stop-Inv i s failed (record s.tables { dkl_table = mark s.tables.dkl_table n false }) d
              inv refl)
      | inr e' ↦
          rw (e, e')
            (push-Inv mmio i s (record { kind = dkl; pll = n; pipe = i })
              (record s.tables { dkl_table = mark s.tables.dkl_table n true }) d inv g
              (
                refl,
                λ k. absurd (dekel_combo k),
                λ k. or_false (val == 0xFFFFFFFF) (s.tables.dkl_table n) e',
              )
              (λ m h. h, λ m. mark_keeps s.tables.dkl_table n m)
              (λ k. absurd (dekel_combo k), λ k. mark_self s.tables.dkl_table n))
    ]
  ]
    where
      n : ℕ
      n = dsel.de_clk - first

      val : ℕ
      val = (read_offset_dword (dkl_pll_div0_addr n) s.device).0

      d : D
      d = (read_offset_dword (dkl_pll_div0_addr n) s.device).1
