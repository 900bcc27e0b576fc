-- ===== src/Memory/Paging.antt =====
-- Translation of addresses through the page tables.
use Prim.Native.Nat.{bit_and, bit_or}
use minimalist_os.Base.{
  ℕ, zero, suc, ◌+◌, ◌-◌, ◌*◌, ◌/◌, ◌%◌, ◌^◌, ◌≤◌, ◌<◌, ◌≡◌, refl, sym, ap, ◌∙◌, ◌≢◌, ◌⊎◌, List,
  true, false, ◌==◌, arith, length, get_or, get_or-set_self, get_or-set_ne, Bool-cases, inl, inr,
}
use minimalist_os.Base.Bits.{or_step}
use minimalist_os.Base.Align.{bit_and-IsAligned, bit_or-add}
use minimalist_os.Memory.{
  PageTables, page_size, paging_init, identity_entries, table_address, table_index, map_page,
  get_phys_addr, page_present, page_write,
}

-- The page frame of an entry: its address without the flags.
frame :
    (q f : ℕ)
    → f < 4096
    → q * 4096 + f < 2 ^ 32
    → bit_and (q * 4096 + f) (2 ^ 32 - 2 ^ 12) ≡ q * 4096
frame q f hf h =
    let al = bit_and-IsAligned 32 12 (q * 4096 + f) (omega arith) h in
    omega (arith, al.multiple, al.below, al.near)

flagged : (q f : ℕ) → f < 4096 → bit_or (q * 4096) f ≡ q * 4096 + f
flagged q f hf = bit_or-add 12 q f hf

table_index-lt : (v : ℕ) → table_index v < 1024
unfolding table_index
table_index-lt v = omega arith

-- `map_page` does not change which table an address goes through.
table_address-map_page :
    (virt phys flags other : ℕ) (s : PageTables)
    → table_address other (map_page virt phys flags s) ≡ table_address other s
unfolding map_page table_address
table_address-map_page virt phys flags other s = refl

-- After `map_page` an address is translated to the page that it was mapped to, at its own offset,
-- and an address of another page that goes through another entry or another table is translated as
-- before, where the page's address is a multiple of the page size, the flags fit below it and the
-- page table has an entry for every index.
pub get_phys_addr-map_page :
    (virt q flags other : ℕ) (s : PageTables)
    → flags < page_size
    → q * page_size + page_size ≤ 2 ^ 32
    → length (s.tables (table_address virt s)) ≡ 1024
    → let s' = map_page virt (q * page_size) flags s in
      (get_phys_addr virt s' ≡ q * page_size + virt % page_size)
      × ((table_address other s ≡ table_address virt s → table_index other ≢ table_index virt)
          → get_phys_addr other s' ≡ get_phys_addr other s)
unfolding map_page get_phys_addr
get_phys_addr-map_page virt q flags other s hf hq full = (
  mapped,
  λ differ. elsewhere (Bool-cases (table_address virt s == table_address other s)) differ,
)
  where
    table : List ℕ
    table = s.tables (table_address virt s)

    mapped :
        get_phys_addr virt (map_page virt (q * page_size) flags s)
        ≡ q * page_size + virt % page_size
    mapped = ground (
      arith,
      get_or-set_self table (table_index virt) (bit_or (q * page_size) flags) 0
          (omega (arith, table_index-lt virt)),
      table_address-map_page virt (q * page_size) flags virt s,
      flagged q flags hf,
      frame q flags hf (omega arith),
    )

    elsewhere :
        ((table_address virt s == table_address other s) ≡ true)
          ⊎ ((table_address virt s == table_address other s) ≡ false)
        → (table_address other s ≡ table_address virt s → table_index other ≢ table_index virt)
        → get_phys_addr other (map_page virt (q * page_size) flags s) ≡ get_phys_addr other s
    elsewhere (inl same) differ =
        let e : table_address other s ≡ table_address virt s = ground arith in
        ground (
          arith,
          same,
          table_address-map_page virt (q * page_size) flags other s,
          e,
          ap s.tables e,
          get_or-set_ne table (table_index virt) (table_index other) (bit_or (q * page_size) flags)
              0 (λ i. differ e (sym i)),
        )
    elsewhere (inr apart) differ =
        ground (arith, apart, table_address-map_page virt (q * page_size) flags other s)

get_or-identity_entries :
    (i n k : ℕ)
    → k < n
    → get_or (identity_entries i n) k 0
      ≡ bit_or (bit_or ((i + k) * page_size) page_present) page_write
unfolding identity_entries
get_or-identity_entries i zero k h = absurd (omega arith)
get_or-identity_entries i (suc n) zero h =
    ap (λ t. bit_or (bit_or (t * page_size) page_present) page_write) (omega arith)
get_or-identity_entries i (suc n) (suc k) h =
    get_or-identity_entries (suc i) n k (omega arith)
    ∙ ap (λ t. bit_or (bit_or (t * page_size) page_present) page_write) (omega arith)

-- An address with the two flags of a kernel page.
kernel_entry : (q : ℕ) → bit_or (bit_or (q * page_size) page_present) page_write ≡ q * page_size + 3
kernel_entry q =
    ap (λ t. bit_or t 2) (flagged q 1 (omega arith))
    ∙ omega (
      arith,
      or_step (q * 4096 + 1) 2,
      ap (λ t. bit_or t 1) {x = (q * 4096 + 1) / 2} {y = q * 2 ^ 11} (omega arith),
      bit_or-add 11 q 1 (omega arith),
    )

module _ (q : ℕ) (s : PageTables) (hq : q * page_size + page_size ≤ 2 ^ 32) where
  low_table : (v : ℕ) → v < 2 ^ 22 → table_address v (paging_init (q * page_size) s) ≡ q * page_size
  unfolding table_address paging_init
  low_table v h =
      let first : v / 2 ^ 22 ≡ 0 = omega arith in
      rw first (
        ap (λ t. bit_and t (2 ^ 32 - 2 ^ 12)) (kernel_entry q)
        ∙ frame q 3 (omega arith) (omega arith))

  high_table :
      (v : ℕ)
      → v < 2 ^ 22
      → table_address (0xC0000000 + v) (paging_init (q * page_size) s) ≡ q * page_size
  unfolding table_address paging_init
  high_table v h =
      let last : (0xC0000000 + v) / 2 ^ 22 ≡ 768 = omega arith in
      rw last (
        ap (λ t. bit_and t (2 ^ 32 - 2 ^ 12)) (kernel_entry q)
        ∙ frame q 3 (omega arith) (omega arith))

  through_table :
      (w : ℕ)
      → table_address w (paging_init (q * page_size) s) ≡ q * page_size
      → get_phys_addr w (paging_init (q * page_size) s) ≡ w % 2 ^ 22
  unfolding get_phys_addr paging_init table_index
  through_table w e =
      let k : ℕ = w / 2 ^ 12 % 2 ^ 10 in
      ground (
        arith,
        e,
        get_or-identity_entries 0 1024 k (omega arith),
        kernel_entry k,
        frame k 3 (omega arith) (omega arith),
      )

-- The identity mapping that `paging_init` sets up: every address of the first 4 MB stands for
-- itself, and every address of the 4 MB from 0xC0000000 on for the one that far below it.
get_phys_addr-paging_init :
    (q v : ℕ) (s : PageTables)
    → q * page_size + page_size ≤ 2 ^ 32
    → v < 2 ^ 22
    → let s' = paging_init (q * page_size) s in
      (get_phys_addr v s' ≡ v) × (get_phys_addr (0xC0000000 + v) s' ≡ v)
get_phys_addr-paging_init q v s hq hv = (
  through_table q s hq v (low_table q s hq v hv) ∙ omega arith,
  through_table q s hq (0xC0000000 + v) (high_table q s hq v hv) ∙ omega arith,
)
