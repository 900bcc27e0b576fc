-- ===== src/Pci/Tests.antt =====
-- A card in slot 3, behind an empty slot 2 and one with another device.
use minimalist_os.Base.{ℕ, ◌/◌, ◌%◌, ◌≡◌, none, some, ◌==◌, if◌then◌else◌, success, failure}
use minimalist_os.Pci.Search.{first, matches, pci_find_device-first}
use minimalist_os.Pci.{PciDevice, pci_config_address, pci_find_device, found_device}

abbrev bus_with_card : ℕ → ℕ
bus_with_card address =
    if address == pci_config_address 0 3 0 0
    then 0x802910EC
    else if address == pci_config_address 0 1 0 0
    then 0x12345678
    else 0xFFFFFFFF

abbrev no_device : PciDevice
no_device = record {
  bus = 0;
  slot = 0;
  function = 0;
  vendor_id = 0;
  device_id = 0;
  bar0 = 0;
  irq_line = 0;
}

pci_find_device-first_example :
    pci_find_device bus_with_card 0x10EC 0x8029 (some no_device)
    ≡ elim (first (matches bus_with_card 0x10EC 0x8029) 0 256) [
      | none ↦ (failure, some no_device)
      | some k ↦ (success, some (found_device bus_with_card (k / 8) (k % 8)))
    ]
pci_find_device-first_example = pci_find_device-first bus_with_card 0x10EC 0x8029 no_device
