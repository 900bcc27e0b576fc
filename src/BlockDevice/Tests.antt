-- ===== src/BlockDevice/Tests.antt =====
-- Blocks that are written and read back on a new device.
use minimalist_os.Base.{◌≡◌, refl, List, [], ◌∷◌, none, success, replicate, arith}
use minimalist_os.BlockDevice.{BlockDevice, block_open}
use minimalist_os.BlockDevice.Disk.{
  Op, seek, load, store, run, run_disk, blank_disk, done, sought, loaded, stored,
  block_open-run_disk,
}
use minimalist_os.Base.Bits.{test_bit, set_bit}
use minimalist_os.Base.Bitmap.{first_free, is_used, mark_used}
use minimalist_os.Memory.{alloc_page, memory_init, heap_init, mark_range}

abbrev closed_device : BlockDevice
closed_device = record {
  start = none;
  block_count = 0;
  current_block = 0;
  medium = replicate 4096 1;
  memory = memory_init (record { page_bitmap = []; used_pages = 0; heap = []; heap_pos = 0 });
}

-- Page 256, the first one after the first megabyte.
first_page : (alloc_page closed_device.memory).0 ≡ 0x100000
unfolding alloc_page memory_init heap_init mark_range first_free is_used mark_used test_bit set_bit
first_page = refl

-- Block 3 is written and read; block 8 is refused, so block 3 is read again; block 2 is blank.
abbrev ops : List Op
ops = seek 3 ∷ store (replicate 512 b'a') ∷ load ∷ seek 8 ∷ load ∷ seek 2 ∷ load ∷ []

block_open-run_disk_example :
    let (status, dev') = block_open closed_device in
    (status ≡ success) × ((run ops dev').0 ≡ (run_disk ops blank_disk).0)
block_open-run_disk_example =
    block_open-run_disk ops closed_device refl (λ e. absurd (omega (arith, e, first_page)))
      (omega arith) (sought (stored refl (loaded (sought (loaded (sought (loaded done)))))))
