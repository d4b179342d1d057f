-- ===== src/Mmio/Linux.antt =====
-- os/linux/mmio_linux.cpp with os/mmio.h and lib/mmio_factory.cpp: the registers behind the class
-- MMIOLinux. What libpciaccess and the file system answer is the record `Pci`; the mapped memory is
-- an `Mmio` of the device. The mutex makes each operation one step.
pub mod Open
mod Tests
use software_vsync_modulatio.Prelude.{
  ℕ, ◌+◌, ◌*◌, Bool, true, false, not, ◌&&◌, ◌||◌, Option, none, some, List, [], ◌∷◌, ◌==◌, ltb,
  if◌then◌else◌,
}
use software_vsync_modulatio.Prelude.Int.{ℤ, pos, negsuc, ltb_ℤ}
use package.software_vsync_modulatio.Mmio.{Mmio}

pub record PciDevice : Type 0 where
  pub vendor_id : ℕ
  pub device_id : ℕ

-- `has_slash` is of the resolved path (the device string has a slash), and `parses` is `sscanf` with
-- four fields; the calls that return an error code are true on success.
pub record Pci : Type 0 where
  pub device_given : Bool
  pub resolves : Bool
  pub has_slash : Bool
  pub parses : Bool
  pub system_init : Bool
  pub find_by_slot : Option PciDevice
  pub first_intel : Option PciDevice
  pub probes : Bool
  pub maps : Bool
  pub unmaps : Bool
  pub closes : Bool

-- `MMIOLinux`; `mapped` is whether `mmio_base_` is set.
pub record Handle : Type 0 where
  pub pci_dev : Option PciDevice
  pub mapped : Bool
  pub mmio_size : ℕ
  pub fd : ℤ
  pub cpu_offset : ℕ
  pub initialized : Bool

pub new_handle : Handle
new_handle = record {
  pci_dev = none;
  mapped = false;
  mmio_size = 0;
  fd = negsuc 0;
  cpu_offset = 0;
  initialized = false;
}

abbrev mmio_size_bytes : ℕ
mmio_size_bytes = 2 * 1024 * 1024

-- The device at the slot if it is one of Intel, else the first graphics device of Intel.
pub chosen_device : Pci → Option PciDevice
chosen_device p = elim p.find_by_slot [
  | none ↦ p.first_intel
  | some dev ↦ if dev.vendor_id == 0x8086 then some dev else p.first_intel
]

pub intel_get_pci_device : Pci → Option PciDevice
unfolding chosen_device
intel_get_pci_device p =
    if p.device_given && (p.resolves && (p.has_slash && (p.parses && p.system_init)))
    then elim (chosen_device p) [
      | none ↦ none
      | some dev ↦ if p.probes && dev.vendor_id == 0x8086 then some dev else none
    ]
    else none

-- The result is true on success.
pub intel_mmio_use_pci_bar : Pci → Handle → Bool × Handle
intel_mmio_use_pci_bar p h =
    if p.maps then (true, record h { mapped = true; mmio_size = mmio_size_bytes }) else (false, h)

pub initialize : Pci → Handle → ℕ × Handle
unfolding intel_get_pci_device intel_mmio_use_pci_bar
initialize p h = if h.initialized then (0, h) else elim (intel_get_pci_device p) [
  | none ↦ (1, record h { pci_dev = none })
  | some dev ↦
      let (mapped, h') = intel_mmio_use_pci_bar p (record h { pci_dev = some dev }) in
      if mapped then (0, record h' { initialized = true }) else (1, record h' { pci_dev = none })
]

abbrev is_some {ℓ} : {A : Type ℓ} → Option A → Bool
is_some none = false
is_some (some a) = true

pub cleanup : Pci → Handle → ℕ × Handle
cleanup p h =
    let unmapping = is_some h.pci_dev && h.mapped in
    let closing = not (ltb_ℤ h.fd (pos 0)) in
    (
      if unmapping && not p.unmaps || closing && not p.closes then 1 else 0,
      record h {
        pci_dev = none;
        mapped = if unmapping then false else h.mapped;
        fd = if closing then negsuc 0 else h.fd;
        initialized = false;
      },
    )

pub get_device_id : Pci → Handle → ℕ × Handle
unfolding intel_get_pci_device
get_device_id p h =
    let found : Option PciDevice = elim h.pci_dev [
      | none ↦ intel_get_pci_device p
      | some dev ↦ some dev
    ] in
    (elim found [ none ↦ 0 | some dev ↦ dev.device_id ], record h { pci_dev = found })

-- `g_mmio_instance` and the device.
pub record Platform (D : Type 0) : Type 0 where
  pub instance_of : Option Handle
  pub device : D

-- `get_mmio_interface` creates the instance where there is none.
pub get_mmio_interface : Option Handle → Handle
unfolding new_handle
get_mmio_interface none = new_handle
get_mmio_interface (some h) = h

-- A use of the interface.
pub data Use : Type 0 where
  maps_it closes_it asks_id : Pci → Use
  reads : ℕ → Use
  writes : ℕ → ℕ → Use

module _ {D : Type 0} (raw : Mmio D) where
  open raw use {read_offset_dword, write_offset_dword}

  pub map_mmio : Pci → Platform D → ℕ × Platform D
  unfolding initialize get_mmio_interface
  map_mmio p s =
      let (ret, h) = initialize p (get_mmio_interface s.instance_of) in
      (ret, record s { instance_of = some h })

  -- `destroy_mmio_interface` cleans up once more, with nothing left to do, and frees the instance.
  pub close_mmio_handle : Pci → Platform D → ℕ × Platform D
  unfolding cleanup get_mmio_interface
  close_mmio_handle p s =
      ((cleanup p (get_mmio_interface s.instance_of)).0, record s { instance_of = none })

  pub device_id_of : Pci → Platform D → ℕ × Platform D
  unfolding get_device_id get_mmio_interface
  device_id_of p s =
      let (id, h) = get_device_id p (get_mmio_interface s.instance_of) in
      (id, record s { instance_of = some h })

  -- `READ_OFFSET_DWORD` and `WRITE_OFFSET_DWORD`
  pub read_reg : ℕ → Platform D → ℕ × Platform D
  unfolding get_mmio_interface
  read_reg offset s =
      let h = get_mmio_interface s.instance_of in
      let (value, d) = read_offset_dword (offset + h.cpu_offset) s.device in
      if not h.initialized || not h.mapped
      then (0, record s { instance_of = some h })
      else (value, record s { instance_of = some h; device = d })

  pub write_reg : ℕ → ℕ → Platform D → Platform D
  unfolding get_mmio_interface
  write_reg offset value s =
      let h = get_mmio_interface s.instance_of in
      if not h.initialized || not h.mapped then record s { instance_of = some h } else record s {
        instance_of = some h;
        device = write_offset_dword (offset + h.cpu_offset) value s.device;
      }

  pub use_once : Use → Platform D → Platform D
  unfolding map_mmio close_mmio_handle device_id_of read_reg write_reg
  use_once (maps_it p) s = (map_mmio p s).1
  use_once (closes_it p) s = (close_mmio_handle p s).1
  use_once (asks_id p) s = (device_id_of p s).1
  use_once (reads a) s = (read_reg a s).1
  use_once (writes a v) s = write_reg a v s

  pub use_all : List Use → Platform D → Platform D
  use_all [] s = s
  use_all (u ∷ us) s = use_all us (use_once u s)
