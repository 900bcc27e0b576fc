-- ===== src/Devices.antt =====
-- kernel/device.c: the linked list of devices. Each entry lies in a page of its own; the drivers'
-- state is a type `D`, which their operations read and change.
pub mod Chain
pub mod Nodes
pub mod Unlink
pub mod Refine
pub mod Calls
mod Tests
use minimalist_os.Base.{
  ℕ, zero, suc, List, Bool, true, false, ◌&&◌, Option, none, some, ℤ, success, failure, is_zero,
  ◌==◌, if◌then◌else◌,
}
use minimalist_os.CString.{strcmp, store_name}
use minimalist_os.Memory.{Memory, max_pages, alloc_page, free_page}

-- An operation that a driver lacks is none.
pub record DeviceOps (D : Type 0) : Type 0 where
  pub open_op : Option (D → ℤ × D)
  pub close_op : Option (D → ℤ × D)
  pub read_op : Option (Option (List ℕ) → ℕ → D → ℤ × Option (List ℕ) × D)
  pub write_op : Option (Option (List ℕ) → ℕ → D → ℤ × D)
  pub ioctl_op : Option (ℕ → Option ℕ → D → ℤ × Option ℕ × D)

-- The fields of `device_t` but `next`, and `private_data`, which is always null.
pub record DeviceInfo (D : Type 0) : Type 0 where
  pub name : List ℕ
  pub type : ℕ
  pub major : ℕ
  pub minor : ℕ
  pub ops : Option (DeviceOps D)

pub record Node (D : Type 0) : Type 0 where
  pub info : DeviceInfo D
  pub next : ℕ

-- `nodes` is the memory of the pages, as entries; the address 0 is the null pointer.
pub record Devices (D : Type 0) : Type 0 where
  pub nodes : ℕ → Node D
  pub device_list : ℕ

module _ {D : Type 0} where
  -- A write through a pointer.
  unfoldable pub update : (ℕ → Node D) → ℕ → Node D → ℕ → Node D
  update nodes p n a = if p == a then n else nodes a

  unfoldable pub device_init : Devices D → Devices D
  device_init s = record s { device_list = 0 }

  -- What `device_register` writes into the page.
  unfoldable pub new_info : List ℕ → List ℕ → ℕ → ℕ → ℕ → Option (DeviceOps D) → DeviceInfo D
  new_info old name type major minor ops = record {
    name = store_name 32 old name;
    type = type;
    major = major;
    minor = minor;
    ops = ops;
  }

  unfoldable pub device_register :
      List ℕ → ℕ → ℕ → ℕ → Option (DeviceOps D) → Devices D → Memory → ℤ × Devices D × Memory
  device_register name type major minor ops s m =
      let (dev, m') = alloc_page m in
      if dev == 0 then (failure, s, m') else (
        success,
        record {
          nodes = update s.nodes dev (record {
            info = new_info (s.nodes dev).info.name name type major minor ops;
            next = s.device_list;
          });
          device_list = dev;
        },
        m',
      )

  -- `current` is unlinked; a null `prev` says that it is the first.
  unfoldable pub bypass : ℕ → ℕ → Devices D → Devices D
  bypass prev current s =
      if prev == 0 then record s { device_list = (s.nodes current).next } else record s {
        nodes = update s.nodes prev (record (s.nodes prev) { next = (s.nodes current).next });
      }

  -- The loop of `device_unregister`, with a bound on its rounds: the entry that was removed, and the
  -- list after it.
  unfoldable pub unlink : ℕ → List ℕ → ℕ → ℕ → Devices D → Option (ℕ × Devices D)
  unlink zero name current prev s = none
  unlink (suc fuel) name current prev s =
      let rest = unlink fuel name (s.nodes current).next current s in
      if current == 0
      then none
      else if is_zero (strcmp (s.nodes current).info.name name)
      then some (current, bypass prev current s)
      else rest

  -- Each entry has a page, so a list has fewer than `max_pages` of them.
  unfoldable pub device_unregister : List ℕ → Devices D → Memory → ℤ × Devices D × Memory
  device_unregister name s m = elim (unlink max_pages name s.device_list 0 s) [
    | none ↦ (failure, s, m)
    | some (page, s') ↦ (success, s', free_page page m)
  ]

  -- The loop of both searches.
  unfoldable pub find_node : (DeviceInfo D → Bool) → (ℕ → Node D) → ℕ → ℕ → Option ℕ
  find_node test nodes zero current = none
  find_node test nodes (suc fuel) current =
      let rest = find_node test nodes fuel (nodes current).next in
      if current == 0 then none else if test (nodes current).info then some current else rest

  unfoldable pub has_name : List ℕ → DeviceInfo D → Bool
  has_name name d = is_zero (strcmp d.name name)

  unfoldable pub has_number : ℕ → ℕ → DeviceInfo D → Bool
  has_number major minor d = d.major == major && d.minor == minor

  unfoldable pub device_find : List ℕ → Devices D → Option ℕ
  device_find name s = find_node (has_name name) s.nodes max_pages s.device_list

  unfoldable pub device_find_by_number : ℕ → ℕ → Devices D → Option ℕ
  device_find_by_number major minor s =
      find_node (has_number major minor) s.nodes max_pages s.device_list

  -- The operations of the device that a search found: none where there is no device or no table.
  unfoldable pub ops_of : Devices D → Option ℕ → Option (DeviceOps D)
  ops_of s none = none
  ops_of s (some dev) = (s.nodes dev).info.ops

  -- A call of an operation without arguments.
  unfoldable pub call : Option (D → ℤ × D) → D → ℤ × D
  call none d = (failure, d)
  call (some f) d = f d

  unfoldable pub device_open : List ℕ → Devices D → D → ℤ × D
  device_open name s d = elim (ops_of s (device_find name s)) [
    | none ↦ (failure, d)
    | some ops ↦ call ops.open_op d
  ]

  unfoldable pub device_close : List ℕ → Devices D → D → ℤ × D
  device_close name s d = elim (ops_of s (device_find name s)) [
    | none ↦ (failure, d)
    | some ops ↦ call ops.close_op d
  ]

  unfoldable pub device_read :
      List ℕ → Option (List ℕ) → ℕ → Devices D → D → ℤ × Option (List ℕ) × D
  device_read name buffer size s d = elim (ops_of s (device_find name s)) [
    | none ↦ (failure, buffer, d)
    | some ops ↦ elim ops.read_op [ none ↦ (failure, buffer, d) | some f ↦ f buffer size d ]
  ]

  unfoldable pub device_write : List ℕ → Option (List ℕ) → ℕ → Devices D → D → ℤ × D
  device_write name buffer size s d = elim (ops_of s (device_find name s)) [
    | none ↦ (failure, d)
    | some ops ↦ elim ops.write_op [ none ↦ (failure, d) | some f ↦ f buffer size d ]
  ]

  unfoldable pub device_ioctl : List ℕ → ℕ → Option ℕ → Devices D → D → ℤ × Option ℕ × D
  device_ioctl name cmd arg s d = elim (ops_of s (device_find name s)) [
    | none ↦ (failure, arg, d)
    | some ops ↦ elim ops.ioctl_op [ none ↦ (failure, arg, d) | some f ↦ f cmd arg d ]
  ]
