-- ===== src/Memory.antt =====
-- kernel/memory.c: the physical page allocator, the kernel heap and the page tables.
pub mod Pages
pub mod Heap
pub mod Paging
mod Tests
use Prim.Native.Nat.{bit_and, bit_or}
use minimalist_os.Base.{
  ℕ, zero, suc, ◌+◌, ◌-◌, ◌*◌, ◌/◌, ◌%◌, ◌^◌, List, [], ◌∷◌, ◌++◌, Bool, Option, none, some, ltb,
  leb, ◌==◌, if◌then◌else◌, get_or, set, take, drop, replicate,
}
use minimalist_os.Base.Bitmap.{mark_used, mark_free, first_free}
use minimalist_os.CString.{memset}

abbrev pub page_size : ℕ
page_size = 4096

abbrev pub max_pages : ℕ
max_pages = 1024

abbrev pub heap_size : ℕ
heap_size = 0x8000

-- The static variables of the allocators. `total_pages` is never assigned: it is `max_pages`.
pub record Memory : Type 0 where
  pub page_bitmap : List ℕ
  pub used_pages : ℕ
  pub heap : List ℕ
  pub heap_pos : ℕ

unfoldable pub heap_init : Memory → Memory
heap_init s = record s { heap_pos = 0 }

-- The loop of `memory_init`, with `n` rounds left from page `i` on.
unfoldable pub mark_range : List ℕ → ℕ → ℕ → List ℕ
mark_range bitmap i zero = bitmap
mark_range bitmap i (suc n) = mark_range (mark_used bitmap i) (suc i) n

unfoldable pub memory_init : Memory → Memory
unfolding heap_init
memory_init s =
    heap_init
      (record s { page_bitmap = mark_range (replicate (max_pages / 32) 0) 0 256; used_pages = 256 })

-- Returns the address of the page, 0 if none is free.
unfoldable pub alloc_page : Memory → ℕ × Memory
alloc_page s = elim (first_free s.page_bitmap 0 max_pages) [
  | none ↦ (0, s)
  | some i ↦ (
    i * page_size,
    record s { page_bitmap = mark_used s.page_bitmap i; used_pages = (s.used_pages + 1) % 2 ^ 32 },
  )
]

unfoldable pub free_page : ℕ → Memory → Memory
free_page page_addr s =
    if ltb (page_addr / page_size) max_pages
    then record s {
      page_bitmap = mark_free s.page_bitmap (page_addr / page_size);
      used_pages = (s.used_pages + 2 ^ 32 - 1) % 2 ^ 32;
    }
    else s

-- A pointer into the heap is its offset.
unfoldable pub kmalloc : ℕ → Memory → Option ℕ × Memory
kmalloc size s = if ltb heap_size ((s.heap_pos + size) % 2 ^ 32) then (none, s) else (
  some s.heap_pos,
  record s { heap_pos = (s.heap_pos + bit_and ((size + 3) % 2 ^ 32) (2 ^ 32 - 2 ^ 2)) % 2 ^ 32 },
)

unfoldable pub kfree : Option ℕ → Memory → Memory
kfree ptr s = s

-- `(pos + alignment - 1) & ~(alignment - 1)` in 32 bits.
unfoldable pub align_up : ℕ → ℕ → ℕ
align_up pos alignment =
    bit_and ((pos + alignment + 2 ^ 32 - 1) % 2 ^ 32)
      (2 ^ 32 - 1 - (alignment + 2 ^ 32 - 1) % 2 ^ 32)

unfoldable pub kmalloc_aligned : ℕ → ℕ → Memory → Option ℕ × Memory
kmalloc_aligned size alignment s =
    let aligned_pos = align_up s.heap_pos alignment in
    if ltb heap_size ((aligned_pos + size) % 2 ^ 32)
    then (none, s)
    else (some aligned_pos, record s { heap_pos = (aligned_pos + size) % 2 ^ 32 })

-- `memset` on the heap from an offset on.
unfoldable pub clear_heap : List ℕ → ℕ → ℕ → List ℕ
clear_heap heap ptr n = take ptr heap ++ memset (drop ptr heap) 0 n

unfoldable pub kcalloc : ℕ → ℕ → Memory → Option ℕ × Memory
unfolding kmalloc clear_heap
kcalloc num size s =
    let total_size = num * size % 2 ^ 32 in
    let (ptr, s') = kmalloc total_size s in
    elim ptr [
      | none ↦ (none, s')
      | some p ↦ (some p, record s' { heap = clear_heap s'.heap p total_size })
    ]

-- The total, used and free pages.
unfoldable pub memory_stats : Memory → ℕ × ℕ × ℕ
memory_stats s = (max_pages, s.used_pages, (max_pages + 2 ^ 32 - s.used_pages) % 2 ^ 32)

unfoldable pub heap_stats : Memory → ℕ × ℕ
heap_stats s = (heap_size, s.heap_pos)

-- The page directory, and the memory that page tables lie in, by the address of a table.
pub record PageTables : Type 0 where
  pub directory : List ℕ
  pub tables : ℕ → List ℕ

abbrev pub page_present : ℕ
page_present = 0x001

abbrev pub page_write : ℕ
page_write = 0x002

-- The loop of `paging_init` that fills the kernel's page table: `n` entries are left, from `i` on.
unfoldable pub identity_entries : ℕ → ℕ → List ℕ
identity_entries i zero = []
identity_entries i (suc n) =
    bit_or (bit_or (i * page_size) page_present) page_write ∷ identity_entries (suc i) n

abbrev pub update_table : (ℕ → List ℕ) → ℕ → List ℕ → ℕ → List ℕ
update_table tables at table a = if at == a then table else tables a

-- The address of the kernel's page table is the linker's choice. Loading CR3 and setting the paging
-- bit of CR0 (`enable_paging`) do not change these tables.
unfoldable pub paging_init : ℕ → PageTables → PageTables
paging_init kernel_page_table s =
    let entry = bit_or (bit_or kernel_page_table page_present) page_write in
    record s {
      directory = set (set (replicate 1024 0) 0 entry) 768 entry;
      tables = update_table s.tables kernel_page_table (identity_entries 0 1024);
    }

-- `kernel_page_directory.entries[virt_addr >> 22] & ~0xFFF`
unfoldable pub table_address : ℕ → PageTables → ℕ
table_address virt_addr s = bit_and (get_or s.directory (virt_addr / 2 ^ 22) 0) (2 ^ 32 - 2 ^ 12)

-- `(virt_addr >> 12) & 0x3FF`
unfoldable pub table_index : ℕ → ℕ
table_index virt_addr = virt_addr / 2 ^ 12 % 2 ^ 10

unfoldable pub map_page : ℕ → ℕ → ℕ → PageTables → PageTables
map_page virt_addr phys_addr flags s =
    let at = table_address virt_addr s in
    record s {
      tables =
          update_table s.tables at
            (set (s.tables at) (table_index virt_addr) (bit_or phys_addr flags));
    }

unfoldable pub unmap_page : ℕ → PageTables → PageTables
unmap_page virt_addr s =
    let at = table_address virt_addr s in
    record s { tables = update_table s.tables at (set (s.tables at) (table_index virt_addr) 0) }

unfoldable pub get_phys_addr : ℕ → PageTables → ℕ
get_phys_addr virt_addr s =
    (bit_and (get_or (s.tables (table_address virt_addr s)) (table_index virt_addr) 0)
        (2 ^ 32 - 2 ^ 12)
      + virt_addr % 2 ^ 12)
    % 2 ^ 32
