-- ===== src/Memory/Pages.antt =====
-- The page allocator: free pages and their count.
use minimalist_os.Base.{
  ℕ, zero, suc, ◌+◌, ◌-◌, ◌*◌, ◌/◌, ◌%◌, ◌^◌, ◌≤◌, ◌<◌, ◌≡◌, refl, ◌∙◌, ◌≢◌, ◌⊎◌, true, false, ◌==◌,
  if◌then◌else◌, lt→ltb, arith, length, inl, inr, Option-cases,
}
use minimalist_os.Base.Bitmap.{
  is_used, mark_used, mark_free, first_free, count_used, length-mark_used, length-mark_free,
  is_used-mark_used, is_used-mark_free, first_free-IsFirst, first_free-none, count_used-mark_used,
  count_used-mark_free, count_used-le, count_used-ext, IsFirst,
}
use minimalist_os.Memory.{Memory, page_size, max_pages, alloc_page, free_page}

-- The bitmap has an entry for each page, the count is right, and page 0 is never free: `alloc_page`
-- returns 0 for failure.
pub record IsValid (s : Memory) : Type 0 where
  pub covers : length s.page_bitmap ≡ 32
  pub counted : s.used_pages ≡ count_used s.page_bitmap 0 max_pages
  pub first_used : is_used s.page_bitmap 0 ≡ true

-- What a successful call of `alloc_page` has done: page `k`, which was free and has none free below
-- it, is the one page whose state differs.
pub record Allocated (s : Memory) (addr : ℕ) (s' : Memory) : Type 0 where
  pub page : ℕ
  pub address : addr ≡ page * page_size
  pub in_range : page < max_pages
  pub was_free : is_used s.page_bitmap page ≡ false
  pub lowest : (j : ℕ) → j < page → is_used s.page_bitmap j ≡ true
  pub now :
      (j : ℕ) → is_used s'.page_bitmap j ≡ (if page == j then true else is_used s.page_bitmap j)
  pub one_more : s'.used_pages ≡ s.used_pages + 1

-- The state after page `k` was taken.
abbrev take_page : Memory → ℕ → Memory
take_page s k = record s {
  page_bitmap = mark_used s.page_bitmap k;
  used_pages = (s.used_pages + 1) % 2 ^ 32;
}

module _ (s : Memory) (v : IsValid s) where
  few_used : s.used_pages ≤ max_pages
  few_used = omega (arith, v.counted, count_used-le s.page_bitmap 0 max_pages)

  not_first : (k : ℕ) → is_used s.page_bitmap k ≡ false → k ≢ 0
  not_first zero f e = cc (v.first_used)
  not_first (suc k) f e = omega arith

  Allocated-take_page :
      (k : ℕ) → IsFirst s.page_bitmap 0 max_pages k → Allocated s (k * page_size) (take_page s k)
  Allocated-take_page k f = record {
    page = k;
    address = refl;
    in_range = f.below;
    was_free = f.free;
    lowest = λ j lt. f.lowest j (omega arith) lt;
    now = λ j. is_used-mark_used s.page_bitmap k j (omega (arith, v.covers, f.below));
    one_more = omega (arith, few_used);
  }

  take_page-IsValid : (k : ℕ) → IsFirst s.page_bitmap 0 max_pages k → IsValid (take_page s k)
  take_page-IsValid k f =
      let fits : k < length s.page_bitmap * 32 = omega (arith, v.covers, f.below) in
      record {
        covers = length-mark_used s.page_bitmap k ∙ v.covers;
        counted = ground (
          arith,
          few_used,
          v.counted,
          f.below,
          count_used-mark_used s.page_bitmap k fits 0 max_pages f.free,
        );
        first_used = ground (arith, v.first_used, is_used-mark_used s.page_bitmap k 0 fits);
      }

-- On a valid state `alloc_page` either returns the address of the lowest free page, which is then
-- used while every other page is as before and the count has grown by one, or it returns 0, no page
-- is free and nothing changes. The state stays valid, and an address returned for a page is not 0.
pub alloc_page_lem :
    (s : Memory)
    → IsValid s
    → let (addr, s') = alloc_page s in
      (Allocated s addr s' × (0 < addr)
        ⊎ (addr ≡ 0) × (s' ≡ s) × ((j : ℕ) → j < max_pages → is_used s.page_bitmap j ≡ true))
      × IsValid s'
unfolding alloc_page
alloc_page_lem s v = elim (Option-cases (first_free s.page_bitmap 0 max_pages)) [
  | inl e ↦
      rw (e, alloc_page)
        (
          inr (refl, refl, λ j lt. first_free-none s.page_bitmap 0 max_pages e j (omega arith) lt),
          v,
        )
  | inr (k, e) ↦
      let f = first_free-IsFirst s.page_bitmap 0 max_pages e in
      rw (e, alloc_page)
        (
          inl (Allocated-take_page s v k f, omega (arith, not_first s v k f.free)),
          take_page-IsValid s v k f,
        )
]

-- Freeing a page that is in use makes just that page free and takes one off the count; the state
-- stays valid as long as the page is not page 0.
pub free_page_lem :
    (addr : ℕ) (s : Memory)
    → IsValid s
    → addr / page_size < max_pages
    → addr / page_size ≢ 0
    → is_used s.page_bitmap (addr / page_size) ≡ true
    → let s' = free_page addr s in
      ((j : ℕ)
        → is_used s'.page_bitmap j
          ≡ (if addr / page_size == j then false else is_used s.page_bitmap j))
      × (s'.used_pages + 1 ≡ s.used_pages)
      × IsValid s'
unfolding free_page
free_page_lem addr s v h ne used =
    let k : ℕ = addr / page_size in
    let fits : k < length s.page_bitmap * 32 = omega (arith, v.covers) in
    let fewer = count_used-mark_free s.page_bitmap k fits 0 max_pages used in
    let some_used : count_used (mark_free s.page_bitmap k) 0 max_pages + 1 ≡ s.used_pages =
      ground (arith, fewer, v.counted) in
    rw (lt→ltb _ _ h) (
      λ j. is_used-mark_free s.page_bitmap k j fits,
      omega (arith, some_used, few_used s v),
      record {
        covers = length-mark_free s.page_bitmap k ∙ v.covers;
        counted = omega (arith, some_used, few_used s v);
        first_used = ground (arith, v.first_used, is_used-mark_free s.page_bitmap k 0 fits);
      },
    )

-- A page that `alloc_page` returned and that is freed at once leaves every page as it was.
free_page-alloc_page :
    (s : Memory)
    → IsValid s
    → (alloc_page s).0 ≢ 0
    → let (addr, s') = alloc_page s in
      let s'' = free_page addr s' in
      ((j : ℕ) → is_used s''.page_bitmap j ≡ is_used s.page_bitmap j)
      × (s''.used_pages ≡ s.used_pages)
free_page-alloc_page s v ne = elim ((alloc_page_lem s v).0) [
  | inl (a, _) ↦ undone a (alloc_page_lem s v).1
  | inr (zero_addr, _, _) ↦ absurd (ne zero_addr)
]
  where
    undone :
        Allocated s (alloc_page s).0 (alloc_page s).1
        → IsValid (alloc_page s).1
        → let (addr, s') = alloc_page s in
          let s'' = free_page addr s' in
          ((j : ℕ) → is_used s''.page_bitmap j ≡ is_used s.page_bitmap j)
          × (s''.used_pages ≡ s.used_pages)
    undone a w =
        let number : (alloc_page s).0 / page_size ≡ a.page = omega (arith, a.address) in
        let released =
          free_page_lem (alloc_page s).0 (alloc_page s).1 w (omega (arith, number, a.in_range))
            (omega (arith, number, not_first s v a.page a.was_free))
            (rw number (ground (arith, a.now a.page))) in
        (
          λ j. ground (arith, released.0 j, a.now j, a.was_free, number),
          omega (arith, released.1, a.one_more),
        )

-- Freeing a page that is already free takes one off the count of used pages all the same, so the
-- count no longer agrees with the bitmap.
free_page-not-IsValid :
    (addr : ℕ) (s : Memory)
    → IsValid s
    → addr / page_size < max_pages
    → is_used s.page_bitmap (addr / page_size) ≡ false
    → ¬ IsValid (free_page addr s)
unfolding free_page
free_page-not-IsValid addr s v h free w =
    let k : ℕ = addr / page_size in
    let fits : k < length s.page_bitmap * 32 = omega (arith, v.covers) in
    let same =
      count_used-ext (mark_free s.page_bitmap k) s.page_bitmap 0 max_pages
        (λ j. ground (arith, free, is_used-mark_free s.page_bitmap k j fits)) in
    let off : (s.used_pages + 2 ^ 32 - 1) % 2 ^ 32
        ≡ count_used (mark_free s.page_bitmap k) 0 max_pages =
      ground (arith, w.counted) in
    omega (arith, same, off, v.counted, few_used s v)
