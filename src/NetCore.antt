-- ===== src/NetCore.antt =====
-- kernel/net_core.c, include/net.h, and drivers/net_ne2k.c: the registry of network devices, its
-- statistics, and the skeleton of a driver. A pointer to a device is a value of a type `A`.
pub mod Registry
mod Tests
use minimalist_os.Base.{
  ℕ, zero, suc, ◌+◌, ◌%◌, ◌^◌, List, [], ◌∷◌, true, false, Option, none, some, ℤ, success, failure,
  is_zero, leb, ◌==◌, if◌then◌else◌, set, get_or, replicate,
}
use minimalist_os.Pci.{PciDevice, pci_find_device}
use minimalist_os.Vfs.{to_int}

abbrev pub net_max_devices : ℕ
net_max_devices = 8

pub record NetCore {ℓ} (A : Type ℓ) : Type ℓ where
  pub net_devices : List (Option A)
  pub net_device_count : ℕ
  pub net_rx_frames : ℕ
  pub net_rx_bytes : ℕ
  pub net_tx_frames : ℕ
  pub net_tx_bytes : ℕ

module _ {ℓ} {A : Type ℓ} where
  -- The set-up, without its message.
  unfoldable pub net_init : NetCore A
  net_init = record {
    net_devices = replicate net_max_devices none;
    net_device_count = 0;
    net_rx_frames = 0;
    net_rx_bytes = 0;
    net_tx_frames = 0;
    net_tx_bytes = 0;
  }

  unfoldable pub net_register_device : Option A → NetCore A → ℤ × NetCore A
  net_register_device none s = (failure, s)
  net_register_device (some dev) s =
      if leb net_max_devices s.net_device_count then (failure, s) else (
        success,
        record s {
          net_devices = set s.net_devices s.net_device_count (some dev);
          net_device_count = s.net_device_count + 1;
        },
      )

  -- `poll` is what the function of a device does to the state of the drivers, if the device has one;
  -- `n` entries are left, from the `i`-th on.
  unfoldable pub poll_devices {κ} : {D : Type κ} → (A → Option (D → D)) → ℕ → ℕ → NetCore A → D → D
  poll_devices poll zero i s d = d
  poll_devices poll (suc n) i s d =
      poll_devices poll n (i + 1) s (elim (get_or s.net_devices i none) [
        | none ↦ d
        | some dev ↦ (elim (poll dev) [ none ↦ d | some f ↦ f d ])
      ])

  unfoldable pub net_poll_all {κ} : {D : Type κ} → (A → Option (D → D)) → NetCore A → D → D
  net_poll_all poll s d = poll_devices poll s.net_device_count 0 s d

  unfoldable pub net_get_device_count : NetCore A → ℕ
  net_get_device_count s = s.net_device_count

  unfoldable pub net_get_device : ℕ → NetCore A → Option A
  net_get_device index s =
      if leb s.net_device_count index then none else get_or s.net_devices index none

  unfoldable pub net_receive_frame : ℕ → NetCore A → NetCore A
  net_receive_frame len s = if len == 0 then s else record s {
    net_rx_frames = (s.net_rx_frames + 1) % 2 ^ 32;
    net_rx_bytes = (s.net_rx_bytes + len) % 2 ^ 32;
  }

  -- Received and sent frames and bytes.
  unfoldable pub net_get_stats : NetCore A → ℕ × ℕ × ℕ × ℕ
  net_get_stats s = (s.net_rx_frames, s.net_rx_bytes, s.net_tx_frames, s.net_tx_bytes)

-- The device of the driver and its counters; the functions and the name that it stores are constants.
pub record Ne2k : Type 0 where
  pub mac : List ℕ
  pub mtu : ℕ
  pub ne2k_tx_packets : ℕ
  pub ne2k_tx_bytes : ℕ
  pub ne2k_poll_calls : ℕ

unfoldable pub ne2k_hw_init : (ℕ → ℕ) → PciDevice → ℤ
ne2k_hw_init config dev = (pci_find_device config 0x10EC 0x8029 (some dev)).0

unfoldable pub ne2k_send : ℕ → Ne2k → ℤ × Ne2k
ne2k_send len d = (
  to_int len,
  record d {
    ne2k_tx_packets = (d.ne2k_tx_packets + 1) % 2 ^ 32;
    ne2k_tx_bytes = (d.ne2k_tx_bytes + len) % 2 ^ 32;
  },
)

unfoldable pub ne2k_poll : Ne2k → Ne2k
ne2k_poll d = record d { ne2k_poll_calls = (d.ne2k_poll_calls + 1) % 2 ^ 32 }

-- `self` is the address of the device, `dev` what the local variable holds before the search.
unfoldable pub net_ne2k_init {ℓ} :
    {A : Type ℓ} → (ℕ → ℕ) → PciDevice → A → Ne2k → NetCore A → ℤ × Ne2k × NetCore A
net_ne2k_init config dev self d s =
    let d' = record d { mac = replicate 6 0; mtu = 1500 } in
    let (status, s') = net_register_device (some self) s in
    if is_zero (ne2k_hw_init config dev)
    then (if is_zero status then (success, d', s') else (failure, d', s'))
    else (failure, d, s)
