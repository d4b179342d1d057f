-- ===== src/Library.antt =====
-- lib/vsyncalter.cpp: the start and the end of the library, and its services without a PHY. What
-- the operating system answers is the record `Env`.
pub mod Lifecycle
use software_vsync_modulatio.Prelude.{
  ℕ, zero, suc, ◌+◌, ◌-◌, ◌%◌, ◌^◌, Bool, true, false, not, Option, none, some, List, [], ◌∷◌, ◌++◌,
  bit_or, ◌==◌, ◌||◌, ltb, length, replicate, get_or, if◌then◌else◌,
}
use software_vsync_modulatio.Prelude.Int.{ℤ, pos, ltb_ℤ}
use software_vsync_modulatio.Prelude.Signed.{signed64, magnitude, ◌==ℤ◌}
use software_vsync_modulatio.Bits.{setbit, u32}
use software_vsync_modulatio.Double.{Double}
use software_vsync_modulatio.Mmio.{Mmio}
use software_vsync_modulatio.Discovery.{
  Kind, dkl, combo, m_n, c10, c20, unsupported, Platform, Found, Tables, mark, Search, Status,
  going, failed, crashed, find_enabled_phys,
}

-- An entry of `platform_table`: the device ids that it lists, and its DDIs.
pub record Entry : Type 0 where
  pub device_ids : List ℕ
  pub platform : Platform

-- What the operating system answers to an initialisation.
pub record Env : Type 0 where
  pub device_given : Bool
  pub opens : Bool
  pub device_id : ℕ
  pub maps : Bool

-- The global state; `is_init` is `IS_INIT()`.
pub record Globals (D : Type 0) : Type 0 where
  pub is_init : Bool
  pub supported_platform : ℕ
  pub phy_list : Option (List Found)
  pub tables : Tables
  pub hardware_ts : Bool
  pub device : D

pub contains : List ℕ → ℕ → Bool
contains [] n = false
contains (x ∷ xs) n = x == n || contains xs n

-- The array of `MAX_DEVICE_ID` ids: the slots that the table leaves out are zero.
pub has_id : Entry → ℕ → Bool
has_id e n = contains (e.device_ids ++ replicate (40 - length e.device_ids) 0) n

-- The first platform with the id, from place `i` on.
pub find_platform : List Entry → ℕ → ℕ → Option (ℕ × Platform)
find_platform [] id i = none
find_platform (e ∷ es) id i =
    let rest = find_platform es id (i + 1) in if has_id e id then some (i, e.platform) else rest

-- The destructor of a PHY that was initialised.
pub delete_phy : Found → Tables → Tables
delete_phy p t = elim p.kind [
  | dkl ↦ record t { dkl_table = mark t.dkl_table p.pll false }
  | combo ↦ record t { combo_table = mark t.combo_table p.pll false }
  | m_n ↦ t
  | c10 ↦ t
  | c20 ↦ t
  | unsupported ↦ t
]

pub delete_all : List Found → Tables → Tables
delete_all [] t = t
delete_all (p ∷ ps) t = delete_all ps (delete_phy p t)

module _ {D : Type 0} (mmio : Mmio D) where
  open mmio use {read_offset_dword, write_offset_dword}

  pub cleanup_phy_list : Globals D → Globals D
  cleanup_phy_list g = elim g.phy_list [
    | none ↦ g
    | some ps ↦ record g { phy_list = none; tables = delete_all ps g.tables }
  ]

  -- `closes` is whether `close_mmio_handle` succeeds; the interface is destroyed in either case.
  pub vsync_lib_uninit : Bool → Globals D → ℕ × Globals D
  vsync_lib_uninit closes g =
      (if closes then 0 else 1, record (cleanup_phy_list g) { is_init = false })

  -- Enabling the hardware timestamps in `HH_ENABLE_REG`.
  pub enable_timestamps : Bool → Globals D → Globals D
  enable_timestamps h_ts g =
      let (val, d) = read_offset_dword 0x462FC g.device in
      if h_ts
      then record g {
        hardware_ts = true;
        device = write_offset_dword 0x462FC (u32 (setbit val 31)) d;
      }
      else g

  -- From the search for the PHYs on; `none` is a followed null pointer.
  pub finish_init : Bool → Bool → Globals D → Search D → Option ℕ × Globals D
  finish_init closes h_ts g s =
      let g' : Globals D = record g {
        is_init = true;
        phy_list = some s.phys;
        tables = s.tables;
        device = s.device;
      } in
      elim s.status [
        | going ↦ (some 0, enable_timestamps h_ts g')
        | failed ↦ (some 1, (vsync_lib_uninit closes g').1)
        | crashed ↦ (none, g')
      ]

  pub vsync_lib_init : List Entry → Env → Bool → Bool → Bool → Globals D → Option ℕ × Globals D
  vsync_lib_init platform_table env closes dp_m_n h_ts g =
      if g.is_init
      then (some 0, g)
      else (if not env.device_given || not env.opens
          then (some 1, g)
          else elim (find_platform platform_table env.device_id 0) [
            | none ↦ (some 1, g)
            | some (i, plat) ↦
                let g' : Globals D = record g { supported_platform = i } in
                if env.maps
                then finish_init closes h_ts g'
                    (find_enabled_phys mmio dp_m_n plat g.tables g.device)
                else (some 1, g')
          ])

-- `get_vsync` with the size check in front of `os_get_vsync`, which gives the timestamps.
pub get_vsync : (ℤ → Option (List ℕ)) → ℤ → Option (List ℕ)
get_vsync os_get_vsync size = if ltb_ℤ (pos 100) size then none else os_get_vsync size

-- The sum of the intervals as a 64-bit pattern, at `i` with `left` rounds to go.
pub total_interval : List ℕ → ℕ → ℕ → ℕ → ℕ
total_interval va zero i acc = acc
total_interval va (suc left) i acc =
    total_interval va left (i + 1) ((acc + (get_or va (i + 1) 0 + 2 ^ 64 - get_or va i 0)) % 2 ^ 64)

pub get_vblank_interval : {W : Type 0} → Double W → (ℤ → Option (List ℕ)) → ℤ → W
get_vblank_interval f os_get_vsync size =
    if ltb_ℤ (pos 100) size || ltb_ℤ size (pos 2)
    then f.literal 0 0
    else elim (get_vsync os_get_vsync size) [
      | none ↦ f.literal 0 0
      | some va ↦
          f.div
            (f.div (f.of_int (signed64 (total_interval va (magnitude size - 1) 0 0)))
              (f.of_int (pos (magnitude size - 1))))
            (f.literal 1000 0)
    ]

-- The names that `get_phy_name` prints, as the type of the PHY.
pub phy_of_pipe : List Found → ℕ → Option Kind
phy_of_pipe [] pipe = none
phy_of_pipe (p ∷ ps) pipe =
    let rest = phy_of_pipe ps pipe in if p.pipe == pipe then some p.kind else rest

-- `get_phy_name`: nothing before the initialisation or for all pipes.
pub get_phy_name : {D : Type 0} → Globals D → ℕ → Option Kind
get_phy_name g pipe =
    if not g.is_init || pipe == 4
    then none
    else elim g.phy_list [ none ↦ none | some ps ↦ phy_of_pipe ps pipe ]
