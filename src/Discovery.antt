-- ===== src/Discovery.antt =====
-- lib/vsyncalter.cpp `find_enabled_phys`, with the constructors of the PHY classes: which PHY drives
-- which pipe. The tables of the Combo and Dekel PLLs keep which of them are in use.
pub mod Distinct
pub mod Exclusive
use software_vsync_modulatio.Prelude.{
  ℕ, suc, ◌+◌, ◌-◌, Bool, true, false, not, Option, none, some, List, [], ◌∷◌, ◌++◌, bit_and, ◌==◌,
  ◌||◌, ◌&&◌, ltb, leb, if◌then◌else◌,
}
use software_vsync_modulatio.Bits.{bit, getbits_val}
use software_vsync_modulatio.Mmio.{Mmio}
use software_vsync_modulatio.Dkl.{dkl_pll_div0_addr}

-- The types of PHYs; the last is any other value of the field.
pub data Kind : Type 0 where
  dkl combo m_n c10 c20 unsupported : Kind

-- `ddi_sel`
pub record DdiSel : Type 0 where
  pub phy : Kind
  pub de_clk : ℕ
  pub dpclk : ℕ
  pub clock_bit : ℕ
  pub mux_select_low_bit : ℕ

-- `platform`, without its name and device ids.
pub record Platform : Type 0 where
  pub ds : List DdiSel
  pub first_dkl_phy_loc : ℕ

-- An initialised PHY; `pll` is its place in the table of its class, 0 where there is none.
pub record Found : Type 0 where
  pub kind : Kind
  pub pll : ℕ
  pub pipe : ℕ

-- The `enabled` members of `combo_table` and `dkl_table`.
pub record Tables : Type 0 where
  pub combo_table : ℕ → Bool
  pub dkl_table : ℕ → Bool

abbrev pub mark : (ℕ → Bool) → ℕ → Bool → ℕ → Bool
mark table n b m = if m == n then b else table m

-- A search goes on, has returned 1, or has followed a null pointer.
pub data Status : Type 0 where
  going failed crashed : Status

pub is_going : Status → Bool
is_going going = true
is_going failed = false
is_going crashed = false

pub record Search (D : Type 0) : Type 0 where
  pub status : Status
  pub phys : List Found
  pub tables : Tables
  pub device : D

module _ {D : Type 0} (mmio : Mmio D) where
  open mmio use {read_offset_dword}

  -- An initialised PHY joins the list.
  abbrev pub push : Found → Tables → D → Search D → Search D
  push p t d s = record { status = s.status; phys = s.phys ++ (p ∷ []); tables = t; device = d }

  -- `combo::combo`. A PHY that is not initialised is deleted, and the destructor follows the null
  -- pointer that `get_ds` returns.
  pub new_combo : DdiSel → ℕ → Search D → Search D
  new_combo dsel pipe s =
      let (dpclk, d) = read_offset_dword dsel.dpclk s.device in
      let n = getbits_val dpclk (dsel.mux_select_low_bit + 1) dsel.mux_select_low_bit in
      if not (bit_and dpclk (bit dsel.clock_bit) == 0) || (leb 4 n || s.tables.combo_table n)
      then record s { status = crashed; device = d }
      else push (record { kind = combo; pll = n; pipe = pipe })
          (record s.tables { combo_table = mark s.tables.combo_table n true }) d s

  -- `dkl::~dkl` of a PHY that is not initialised.
  abbrev delete_dkl : ℕ → Tables → Tables
  delete_dkl n t = record t { dkl_table = mark t.dkl_table n false }

  -- `dkl::dkl`
  pub new_dkl : DdiSel → ℕ → ℕ → Search D → Search D
  new_dkl dsel first_dkl_phy_loc pipe s =
      let n = dsel.de_clk - first_dkl_phy_loc in
      let (val, d) = read_offset_dword (dkl_pll_div0_addr n) s.device in
      if ltb dsel.de_clk first_dkl_phy_loc
      then record s { status = failed; tables = delete_dkl 0 s.tables }
      else (if val == 0xFFFFFFFF || s.tables.dkl_table n
          then record s { status = failed; tables = delete_dkl n s.tables; device = d }
          else push (record { kind = dkl; pll = n; pipe = pipe })
              (record s.tables { dkl_table = mark s.tables.dkl_table n true }) d s)

  -- `mode_select == DP_SST || mode_select == DP_MST`
  pub is_dp : ℕ → Bool
  is_dp val = getbits_val val 26 24 == 2 || getbits_val val 26 24 == 3

  -- The constructor by the type of the PHY. Those of `c10`, `c20` and `dp_m_n` always initialise.
  pub new_phy : ℕ → DdiSel → ℕ → Search D → Search D
  new_phy first_dkl_phy_loc dsel pipe s = elim dsel.phy [
    | dkl ↦ new_dkl dsel first_dkl_phy_loc pipe s
    | combo ↦ new_combo dsel pipe s
    | c10 ↦ push (record { kind = c10; pll = 0; pipe = pipe }) s.tables s.device s
    | c20 ↦ push (record { kind = c20; pll = 0; pipe = pipe }) s.tables s.device s
    | m_n ↦ record s { status = failed }
    | unsupported ↦ record s { status = failed }
  ]

  -- The first entry of the platform for a DDI.
  pub match_ddi : List DdiSel → ℕ → Option DdiSel
  match_ddi [] ddi_select = none
  match_ddi (x ∷ xs) ddi_select =
      let rest = match_ddi xs ddi_select in if x.de_clk == ddi_select then some x else rest

  -- One pipe: its TRANS_DDI_FUNC_CTL register says whether it is on, and its DDI.
  pub visit : Bool → Platform → ℕ → ℕ → Search D → Search D
  visit with_m_n plat addr pipe s =
      let (val, d) = read_offset_dword addr s.device in
      let s' : Search D = record s { device = d } in
      if bit_and val (bit 31) == 0 then s' else elim (match_ddi plat.ds (getbits_val val 30 27)) [
        | none ↦ s'
        | some dsel ↦
            if with_m_n && is_dp val
            then push (record { kind = m_n; pll = 0; pipe = pipe }) s.tables d s'
            else new_phy plat.first_dkl_phy_loc dsel pipe s'
      ]

  -- The loop over the pipes from `i` on, by the addresses of their registers.
  pub visit_all : Bool → Platform → List ℕ → ℕ → Search D → Search D
  visit_all with_m_n plat [] i s = s
  visit_all with_m_n plat (addr ∷ addrs) i s =
      let s' = visit with_m_n plat addr i s in
      let rest = visit_all with_m_n plat addrs (suc i) s' in if is_going s'.status then rest else s'

  pub find_enabled_phys : Bool → Platform → Tables → D → Search D
  find_enabled_phys with_m_n plat tables d =
      visit_all with_m_n plat (0x60400 ∷ 0x61400 ∷ 0x62400 ∷ 0x63400 ∷ []) 0
        (record { status = going; phys = []; tables = tables; device = d })
