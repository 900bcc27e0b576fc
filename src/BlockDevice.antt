-- ===== src/BlockDevice.antt =====
-- drivers/block_device.c: a block device in one page of memory.
pub mod Disk
mod Tests
use minimalist_os.Base.{
  ℕ, ◌+◌, ◌-◌, ◌*◌, ◌/◌, ◌%◌, ◌^◌, List, [], ◌∷◌, Option, none, some, ℤ, success, failure, ltb,
  ◌==◌, if◌then◌else◌, drop,
}
use minimalist_os.Base.Copy.{copy_at}
use minimalist_os.CString.{memset, memcpy}
use minimalist_os.Devices.{DeviceOps, Devices, device_register}
use minimalist_os.Memory.{Memory, alloc_page, page_size}
use minimalist_os.Vfs.{to_int}

abbrev pub block_size : ℕ
block_size = 512

abbrev pub num_blocks : ℕ
num_blocks = 1024

abbrev pub device_size : ℕ
device_size = block_size * num_blocks

-- `start` is the pointer `data` of the source, none for a null one; `medium` is the memory from that
-- address on.
pub record BlockDevice : Type 0 where
  pub start : Option ℕ
  pub block_count : ℕ
  pub current_block : ℕ
  pub medium : List ℕ
  pub memory : Memory

-- The device after its page has been allocated: more than one page would be needed, so the count is
-- that of the blocks of a page.
unfoldable pub with_page : ℕ → Memory → BlockDevice → BlockDevice
with_page first_page memory dev =
    let pages_needed = (device_size + page_size - 1) / page_size in
    record {
      start = some first_page;
      block_count = if ltb 1 pages_needed then page_size / block_size else num_blocks;
      current_block = 0;
      medium = memset dev.medium 0 page_size;
      memory = memory;
    }

unfoldable pub block_open : BlockDevice → ℤ × BlockDevice
block_open dev = elim dev.start [
  | some _ ↦ (success, dev)
  | none ↦
      let (first_page, memory) = alloc_page dev.memory in
      if first_page == 0
      then (failure, record dev { memory = memory })
      else (success, with_page first_page memory dev)
]

unfoldable pub block_close : BlockDevice → ℤ × BlockDevice
block_close dev = (success, dev)

-- The size of an access; the sum is of 32 bits.
unfoldable pub access_size : ℕ → ℕ → ℕ
access_size offset size =
    if ltb device_size ((offset + size) % 2 ^ 32) then device_size - offset else size

-- Returns the status and the buffer.
unfoldable pub block_read : Option (List ℕ) → ℕ → BlockDevice → ℤ × Option (List ℕ) × BlockDevice
block_read none size dev = (failure, none, dev)
block_read (some buffer) size dev =
    let offset = dev.current_block * block_size in
    let n = access_size offset size in
    elim dev.start [
      | none ↦ (failure, some buffer, dev)
      | some _ ↦ (to_int n, some (memcpy buffer (drop offset dev.medium) n), dev)
    ]

unfoldable pub block_write : Option (List ℕ) → ℕ → BlockDevice → ℤ × BlockDevice
block_write none size dev = (failure, dev)
block_write (some buffer) size dev =
    let offset = dev.current_block * block_size in
    let n = access_size offset size in
    elim dev.start [
      | none ↦ (failure, dev)
      | some _ ↦ (to_int n, record dev { medium = copy_at dev.medium offset buffer n })
    ]

-- The argument is what the pointer `arg` points to, none for a null one.
unfoldable pub block_ioctl : ℕ → Option ℕ → BlockDevice → ℤ × Option ℕ × BlockDevice
block_ioctl cmd none dev = (failure, none, dev)
block_ioctl cmd (some block) dev =
    if cmd == 0
    then (if ltb block dev.block_count
        then (success, some block, record dev { current_block = block })
        else (failure, some block, dev))
    else if cmd == 1
    then (success, some dev.block_count, dev)
    else if cmd == 2
    then (success, some dev.current_block, dev)
    else (failure, some block, dev)

unfoldable pub block_ops : DeviceOps BlockDevice
block_ops = record {
  open_op = some block_open;
  close_op = some block_close;
  read_op = some block_read;
  write_op = some block_write;
  ioctl_op = some block_ioctl;
}

-- "block0"
abbrev pub block_name : List ℕ
block_name = b'b' ∷ b'l' ∷ b'o' ∷ b'c' ∷ b'k' ∷ b'0' ∷ 0 ∷ []

-- DEV_TYPE_BLOCK is 2. The result of the registration is dropped.
unfoldable pub block_device_init :
    BlockDevice → Devices BlockDevice → BlockDevice × Devices BlockDevice
block_device_init dev s =
    let (_, s', memory) = device_register block_name 2 1 0 (some block_ops) s dev.memory in
    (record dev { start = none; block_count = 0; current_block = 0; memory = memory }, s')
