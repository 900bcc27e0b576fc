-- ===== src/Pci.antt =====
-- kernel/pci.c, include/pci.h: the search for a device on the first PCI bus. What the configuration
-- space holds is a parameter: the word of 32 bits that the data port gives for an address that has
-- been written to the address port.
pub mod Search
mod Tests
use Prim.Native.Nat.{bit_and, bit_or}
use minimalist_os.Base.{
  ℕ, zero, suc, ◌+◌, ◌*◌, ◌/◌, ◌%◌, ◌^◌, List, [], ◌∷◌, true, false, ◌&&◌, Option, none, some, ℤ,
  success, failure, ◌==◌, if◌then◌else◌,
}

-- The offset is a byte, `& 0xFC` keeps its upper six bits.
unfoldable pub pci_config_address : ℕ → ℕ → ℕ → ℕ → ℕ
pci_config_address bus slot func offset =
    bit_or (bit_or (bit_or (bit_or (2 ^ 31) (bus * 2 ^ 16)) (slot * 2 ^ 11)) (func * 2 ^ 8))
      (bit_and offset 0xFC)

pub record PciDevice : Type 0 where
  pub bus : ℕ
  pub slot : ℕ
  pub function : ℕ
  pub vendor_id : ℕ
  pub device_id : ℕ
  pub bar0 : ℕ
  pub irq_line : ℕ

module _ (config : ℕ → ℕ) where
  unfoldable pub pci_read_config_dword : ℕ → ℕ → ℕ → ℕ → ℕ
  pci_read_config_dword bus slot func offset = config (pci_config_address bus slot func offset)

  unfoldable pub pci_read_config_word : ℕ → ℕ → ℕ → ℕ → ℕ
  pci_read_config_word bus slot func offset =
      let word = config (pci_config_address bus slot func offset) in
      if bit_and offset 2 == 0 then word % 2 ^ 16 else word / 2 ^ 16 % 2 ^ 16

  -- The inner loop of `pci_find_device`: `n` functions are left, from `func` on.
  unfoldable pub scan_functions : ℕ → ℕ → ℕ → ℕ → ℕ → Option ℕ
  scan_functions vendor device slot func zero = none
  scan_functions vendor device slot func (suc n) =
      let rest = scan_functions vendor device slot (suc func) n in
      let v = pci_read_config_word 0 slot func 0x00 in
      let d = pci_read_config_word 0 slot func 0x02 in
      if v == 0xFFFF
      then (if func == 0 then none else rest)
      else if (v == vendor) && (d == device)
      then some func
      else rest

  -- The outer loop: `n` slots are left, from `slot` on.
  unfoldable pub scan_slots : ℕ → ℕ → ℕ → ℕ → Option (ℕ × ℕ)
  scan_slots vendor device slot zero = none
  scan_slots vendor device slot (suc n) =
      let rest = scan_slots vendor device (suc slot) n in
      elim (scan_functions vendor device slot 0 8) [ some func ↦ some (slot, func) | none ↦ rest ]

  -- What is stored for the device that was found.
  unfoldable pub found_device : ℕ → ℕ → PciDevice
  found_device slot func = record {
    bus = 0;
    slot = slot;
    function = func;
    vendor_id = pci_read_config_word 0 slot func 0x00;
    device_id = pci_read_config_word 0 slot func 0x02;
    bar0 = pci_read_config_dword 0 slot func 0x10;
    irq_line = pci_read_config_dword 0 slot func 0x3C % 256;
  }

  -- The last argument is what `out` points to, none for a null pointer; what it points to afterwards
  -- is part of the result. include/pci.h says that only function 0 is looked at; the code looks at all
  -- eight.
  unfoldable pub pci_find_device : ℕ → ℕ → Option PciDevice → ℤ × Option PciDevice
  pci_find_device vendor device none = (failure, none)
  pci_find_device vendor device (some out) = elim (scan_slots vendor device 0 32) [
    | none ↦ (failure, some out)
    | some (slot, func) ↦ (success, some (found_device slot func))
  ]

  -- The devices that are logged: slot, vendor and device.
  unfoldable pub dump_slots : ℕ → ℕ → List (ℕ × ℕ × ℕ)
  dump_slots slot zero = []
  dump_slots slot (suc n) =
      let v = pci_read_config_word 0 slot 0 0x00 in
      let rest = dump_slots (suc slot) n in
      if v == 0xFFFF then rest else (slot, v, pci_read_config_word 0 slot 0 0x02) ∷ rest

  unfoldable pub pci_dump_bus0 : List (ℕ × ℕ × ℕ)
  pci_dump_bus0 = dump_slots 0 32
