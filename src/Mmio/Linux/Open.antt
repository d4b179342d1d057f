-- ===== src/Mmio/Linux/Open.antt =====
-- The registers are reached exactly while the interface is open.
use software_vsync_modulatio.Prelude.{
  ℕ, ◌+◌, ◌≡◌, refl, Bool, false, ◌&&◌, ◌||◌, Option, none, some, List, [], ◌∷◌, arith,
  if◌then◌else◌,
}
use package.software_vsync_modulatio.Mmio.{Mmio}
use software_vsync_modulatio.Mmio.Linux.{
  Pci, Handle, Platform, Use, maps_it, closes_it, asks_id, reads, writes, is_some,
  intel_get_pci_device, intel_mmio_use_pci_bar, initialize, get_device_id, get_mmio_interface,
  new_handle, map_mmio, close_mmio_handle, device_id_of, read_reg, write_reg, use_once, use_all,
}

-- A device is found and can be mapped.
abbrev pub can_open : Pci → Bool
can_open p = is_some (intel_get_pci_device p) && p.maps

-- Whether the interface is open after the uses, if it was before: a mapping that works opens it,
-- and only a close closes it.
pub opened : List Use → Bool → Bool
opened [] open_before = open_before
opened (maps_it p ∷ us) open_before = opened us (open_before || can_open p)
opened (closes_it p ∷ us) open_before = opened us false
opened (asks_id p ∷ us) open_before = opened us open_before
opened (reads a ∷ us) open_before = opened us open_before
opened (writes a v ∷ us) open_before = opened us open_before

-- The two flags of a handle tell whether it is open.
abbrev Agrees : Bool → Option Handle → Type 0
Agrees b none = b ≡ false
Agrees b (some h) = (h.initialized ≡ b) × (h.mapped ≡ b) × (h.cpu_offset ≡ 0)

get-Agrees : (b : Bool) (o : Option Handle) → Agrees b o → Agrees b (some (get_mmio_interface o))
unfolding get_mmio_interface new_handle
get-Agrees b none e = ground arith
get-Agrees b (some h) a = a

initialize-Agrees :
    (p : Pci) (b : Bool) (h : Handle)
    → Agrees b (some h)
    → Agrees (b || can_open p) (some (initialize p h).1)
unfolding initialize intel_mmio_use_pci_bar
initialize-Agrees p b h a = ground arith

module _ {D : Type 0} (raw : Mmio D) where
  use_once-Agrees :
      (u : Use) (b : Bool) (s : Platform D)
      → Agrees b s.instance_of
      → Agrees (opened (u ∷ []) b) (use_once raw u s).instance_of
  unfolding use_once map_mmio close_mmio_handle device_id_of read_reg write_reg opened
  use_once-Agrees (maps_it p) b s a =
      initialize-Agrees p b (get_mmio_interface s.instance_of) (get-Agrees b s.instance_of a)
  use_once-Agrees (closes_it p) b s a = refl
  use_once-Agrees (asks_id p) b s a = unfold get_device_id in get-Agrees b s.instance_of a
  use_once-Agrees (reads r) b s a = let (i, m, o) = get-Agrees b s.instance_of a in ground arith
  use_once-Agrees (writes r v) b s a = let (i, m, o) = get-Agrees b s.instance_of a in ground arith

  opened-step :
      (u : Use) (us : List Use) (b : Bool) → opened (u ∷ us) b ≡ opened us (opened (u ∷ []) b)
  unfolding opened
  opened-step (maps_it p) us b = refl
  opened-step (closes_it p) us b = refl
  opened-step (asks_id p) us b = refl
  opened-step (reads r) us b = refl
  opened-step (writes r v) us b = refl

  use_all-Agrees :
      (us : List Use) (b : Bool) (s : Platform D)
      → Agrees b s.instance_of
      → Agrees (opened us b) (use_all raw us s).instance_of
  unfolding use_all
  use_all-Agrees [] b s a = unfold opened in a
  use_all-Agrees (u ∷ us) b s a =
      rw (opened-step u us b)
        (use_all-Agrees us (opened (u ∷ []) b) (use_once raw u s) (use_once-Agrees u b s a))

  -- From a platform without an instance and after any uses: a read gives the value of the register
  -- and a write sets it if the interface is open, that is, if a mapping has worked since the last
  -- close; else a read gives 0, and neither touches the device.
  module _ (us : List Use) (d : D) where
    abbrev pub used : Platform D
    used = use_all raw us (record { instance_of = none; device = d })

    pub access-opened :
        (r v : ℕ)
        → ((read_reg raw r used).0
            ≡ (if opened us false then (raw.read_offset_dword r used.device).0 else 0))
          × ((read_reg raw r used).1.device
              ≡ (if opened us false then (raw.read_offset_dword r used.device).1 else used.device))
          × ((write_reg raw r v used).device
              ≡ (if opened us false then raw.write_offset_dword r v used.device else used.device))
    unfolding read_reg write_reg
    access-opened r v =
        let start = use_all-Agrees us false (record { instance_of = none; device = d }) refl in
        let (i, m, o) = get-Agrees (opened us false) used.instance_of start in
        let e : r + (get_mmio_interface used.instance_of).cpu_offset ≡ r = omega arith in
        rw (e, i, m) (ground arith)
