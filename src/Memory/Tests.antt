-- ===== src/Memory/Tests.antt =====
-- Tests of the allocators and page tables, and the theorems at the states after initialisation.
use minimalist_os.Base.{
  ℕ, ◌+◌, ◌*◌, ◌%◌, ◌<◌, ◌≡◌, refl, ◌≢◌, ◌⊎◌, [], ◌∷◌, true, false, none, some, arith, replicate,
}
use minimalist_os.Base.Bitmap.{is_used, mark_used, first_free, count_used}
use minimalist_os.Base.Bits.{test_bit, set_bit}
use minimalist_os.Memory.{
  Memory, PageTables, page_size, max_pages, heap_size, memory_init, heap_init, mark_range,
  alloc_page, kmalloc, align_up, table_address, map_page, get_phys_addr, table_index,
}
use minimalist_os.Memory.Pages
use minimalist_os.Memory.Pages.{Allocated, alloc_page_lem, free_page_lem}
use minimalist_os.Memory.Heap
use minimalist_os.Memory.Heap.{Granted, kmalloc_lem, kmalloc-kmalloc_disjoint, kmalloc_aligned_lem}
use minimalist_os.Memory.Paging.{get_phys_addr-map_page}

-- The first word holds the kernel's pages 0 and 1; all others are free.
abbrev small : Memory
small = record {
  page_bitmap = 3 ∷ replicate 31 0;
  used_pages = 2;
  heap = replicate 16 7;
  heap_pos = 8;
}

small-IsValid : Pages.IsValid small
unfolding is_used count_used test_bit
small-IsValid = record { covers = refl; counted = refl; first_used = refl }

-- `memory_init` marks the first 256 pages, and nothing else.
booted :
    (memory_init small).page_bitmap
    ≡ 0xFFFFFFFF
      ∷ 0xFFFFFFFF
      ∷ 0xFFFFFFFF
      ∷ 0xFFFFFFFF
      ∷ 0xFFFFFFFF
      ∷ 0xFFFFFFFF
      ∷ 0xFFFFFFFF
      ∷ 0xFFFFFFFF
      ∷ replicate 24 0
unfolding memory_init heap_init mark_range mark_used set_bit
booted = refl

alloc_page_lem_example :
    let (addr, s') = alloc_page small in
    (Allocated small addr s' × (0 < addr)
      ⊎ (addr ≡ 0) × (s' ≡ small) × ((j : ℕ) → j < max_pages → is_used small.page_bitmap j ≡ true))
    × Pages.IsValid s'
alloc_page_lem_example = alloc_page_lem small small-IsValid

third_page : (alloc_page small).0 ≡ 0x2000
unfolding alloc_page first_free is_used test_bit
third_page = refl

page_one_used : is_used small.page_bitmap 1 ≡ true
unfolding is_used test_bit
page_one_used = refl

page_two_free : is_used small.page_bitmap 2 ≡ false
unfolding is_used test_bit
page_two_free = refl

small_heap-IsValid : Heap.IsValid small
small_heap-IsValid = record { inside = omega arith; aligned = refl }

kmalloc_lem_example :
    let (ptr, s') = kmalloc 5 small in
    (ptr ≡ some 8) × Granted small 5 8 s' ⊎ (ptr ≡ none) × (s' ≡ small) × (heap_size < 8 + 5)
kmalloc_lem_example = kmalloc_lem 5 small small_heap-IsValid (omega arith)

first_block : (kmalloc 5 small).0 ≡ some 8
unfolding kmalloc
first_block = refl

second_block : (kmalloc 6 (kmalloc 5 small).1).0 ≡ some 16
unfolding kmalloc
second_block = refl

next_page_address : align_up 8 4096 ≡ 4096
unfolding align_up
next_page_address = refl

-- A heap of its full size.
roomy : Memory
roomy =
    let seven : ℕ = 7 in
    record { page_bitmap = []; used_pages = 0; heap = replicate heap_size seven; heap_pos = 0 }

-- The page tables before and after initialisation, with the kernel's page table at 0x5000.
abbrev blank : PageTables
blank = record { directory = []; tables = λ a. [] }

-- Every page directory entry is absent, so every address goes through the table at address 0.
abbrev flat : PageTables
flat = record { directory = []; tables = λ a. replicate 1024 0 }

get_phys_addr-map_page_example :
    let s' = map_page 0x3456 (9 * page_size) 3 flat in
    (get_phys_addr 0x3456 s' ≡ 9 * page_size + 0x3456 % page_size)
    × ((table_address 0x4000 flat ≡ table_address 0x3456 flat
          → table_index 0x4000 ≢ table_index 0x3456)
        → get_phys_addr 0x4000 s' ≡ get_phys_addr 0x4000 flat)
get_phys_addr-map_page_example =
    get_phys_addr-map_page 0x3456 9 3 0x4000 flat (omega arith) (omega arith) refl
