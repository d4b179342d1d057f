-- ===== src/Mmio/Linux/Tests.antt =====
-- The theorems on os/linux/mmio_linux.cpp at a concrete device.
use software_vsync_modulatio.Prelude.{◌≡◌, true, false, some, List, [], ◌∷◌, if◌then◌else◌}
use package.software_vsync_modulatio.Mmio.Store.{store}
use software_vsync_modulatio.Mmio.Linux.{Pci, Use, maps_it, asks_id, writes, read_reg, write_reg}
use software_vsync_modulatio.Mmio.Linux.Open.{opened, used, access-opened}

abbrev a_pci : Pci
a_pci = record {
  device_given = true;
  resolves = true;
  has_slash = true;
  parses = true;
  system_init = true;
  find_by_slot = some (record { vendor_id = 0x8086; device_id = 0x9A49 });
  first_intel = some (record { vendor_id = 0x8086; device_id = 0x9A49 });
  probes = true;
  maps = true;
  unmaps = true;
  closes = true;
}

-- A look at the identifier, a mapping and a write.
abbrev some_uses : List Use
some_uses = asks_id a_pci ∷ (maps_it a_pci ∷ (writes 0x64040 5 ∷ []))

access-opened_example :
    let s = used store some_uses (λ a. 0) in
    ((read_reg store 0x64040 s).0
      ≡ (if opened some_uses false then (store.read_offset_dword 0x64040 s.device).0 else 0))
    × ((read_reg store 0x64040 s).1.device ≡ (
        if opened some_uses false then (store.read_offset_dword 0x64040 s.device).1 else s.device))
    × ((write_reg store 0x64040 7 s).device ≡ (
        if opened some_uses false then store.write_offset_dword 0x64040 7 s.device else s.device))
access-opened_example = access-opened store some_uses (λ a. 0) 0x64040 7
