-- ===== src/Memory/Heap.antt =====
-- The kernel heap and the blocks that it hands out.
use Prim.Native.Nat.{bit_and}
use minimalist_os.Base.{
  ap, ◌∙◌, ℕ, zero, suc, ◌+◌, ◌-◌, ◌*◌, ◌%◌, ◌^◌, ◌≤◌, ◌<◌, ◌≡◌, refl, ◌∙◌, ◌⊎◌, List, [], ◌∷◌,
  none, some, ltb, leb, ◌&&◌, if◌then◌else◌, arith, length, inl, inr, Bool-cases, get_or,
}
use minimalist_os.Base.Align.{IsAligned, bit_and-IsAligned, pow_le}
use minimalist_os.Base.Bits.{pow_pos, pow_lt}
use minimalist_os.CString.{memset}
use minimalist_os.Memory.{
  Memory, heap_size, kmalloc, kmalloc_aligned, kcalloc, align_up, clear_heap,
}

-- The heap position that `kmalloc` alone keeps: inside the heap and a multiple of 4.
pub record IsValid (s : Memory) : Type 0 where
  pub inside : s.heap_pos ≤ heap_size
  pub aligned : s.heap_pos % 4 ≡ 0

-- What a block of `size` bytes at `p` is to the states before and after.
pub record Granted (s : Memory) (size p : ℕ) (s' : Memory) : Type 0 where
  pub start : s.heap_pos ≤ p
  pub fits : p + size ≤ heap_size
  pub past : p + size ≤ s'.heap_pos
  pub valid : IsValid s'

rounded :
    (size : ℕ) → size + 3 < 2 ^ 32 → IsAligned (size + 3) 2 (bit_and (size + 3) (2 ^ 32 - 2 ^ 2))
rounded size h = bit_and-IsAligned 32 2 (size + 3) (omega arith) h

-- On a valid heap a request that does not carry the position past 32 bits is granted exactly when
-- it fits: then the block lies in the heap, begins at a multiple of 4 and ends before the next
-- block; else nothing changes.
pub kmalloc_lem :
    (size : ℕ) (s : Memory)
    → IsValid s
    → s.heap_pos + size < 2 ^ 32
    → let (ptr, s') = kmalloc size s in
      (ptr ≡ some s.heap_pos) × Granted s size s.heap_pos s'
      ⊎ (ptr ≡ none) × (s' ≡ s) × (heap_size < s.heap_pos + size)
unfolding kmalloc
kmalloc_lem size s v h = elim (Bool-cases (ltb heap_size ((s.heap_pos + size) % 2 ^ 32))) [
  | inl full ↦ rw full (inr (refl, refl, ground arith))
  | inr room ↦ rw room (inl (refl, granted (ground arith)))
]
  where
    granted :
        s.heap_pos + size ≤ heap_size
        → Granted s size s.heap_pos (record s {
          heap_pos = (s.heap_pos + bit_and ((size + 3) % 2 ^ 32) (2 ^ 32 - 2 ^ 2)) % 2 ^ 32;
        })
    granted le =
        let small : (size + 3) % 2 ^ 32 ≡ size + 3 = omega arith in
        let r = rounded size (omega arith) in
        rw small (record {
          start = omega arith;
          fits = le;
          past = omega (arith, r.below, r.near);
          valid = record {
            inside = omega (arith, v.aligned, r.multiple, r.below, r.near);
            aligned = omega (arith, v.aligned, r.multiple, r.below);
          };
        })

-- Two blocks that `kmalloc` grants one after the other do not overlap.
pub kmalloc-kmalloc_disjoint :
    (size size' : ℕ) (s : Memory) {p p' : ℕ}
    → IsValid s
    → s.heap_pos + size < 2 ^ 32
    → size' < 2 ^ 31
    → (kmalloc size s).0 ≡ some p
    → (kmalloc size' (kmalloc size s).1).0 ≡ some p'
    → (p + size ≤ p') × (p' + size' ≤ heap_size)
kmalloc-kmalloc_disjoint size size' s {p} {p'} v h h' e e' = elim (kmalloc_lem size s v h) [
  | inl (e₁, g) ↦
      let next = kmalloc_lem size' (kmalloc size s).1 g.valid (omega (arith, g.valid.inside)) in
      elim next [
        | inl (e₂, g') ↦
            let at_p : s.heap_pos ≡ p = ground (arith, e, e₁) in
            let at_p' : (kmalloc size s).1.heap_pos ≡ p' = ground (arith, e', e₂) in
            (omega (arith, at_p, at_p', g.past), omega (arith, at_p', g'.fits))
        | inr (e₂, _, _) ↦ absurd (cc (e₂, e'))
      ]
  | inr (e₁, _, _) ↦ absurd (cc (e₁, e))
]

-- A request so large that the position would pass 32 bits is granted all the same, although the
-- block does not fit into the heap.
kmalloc_overflow :
    (size : ℕ) (s : Memory)
    → IsValid s
    → size < 2 ^ 32
    → 2 ^ 32 ≤ s.heap_pos + size
    → ((kmalloc size s).0 ≡ some s.heap_pos) × (heap_size < s.heap_pos + size)
unfolding kmalloc
kmalloc_overflow size s v h big = ground arith

-- Rounding a position up to an alignment that is a power of two.
pub align_up-IsAligned :
    (pos k : ℕ)
    → k < 32
    → pos + 2 ^ k ≤ 2 ^ 32
    → IsAligned (pos + 2 ^ k - 1) k (align_up pos (2 ^ k))
unfolding align_up
align_up-IsAligned pos k hk h =
    let sum : (pos + 2 ^ k + 2 ^ 32 - 1) % 2 ^ 32 ≡ pos + 2 ^ k - 1 = omega (arith, pow_pos k) in
    let mask : 2 ^ 32 - 1 - (2 ^ k + 2 ^ 32 - 1) % 2 ^ 32 ≡ 2 ^ 32 - 2 ^ k =
      omega (arith, pow_pos k, pow_lt k 32 hk) in
    rw (sum, mask)
      (bit_and-IsAligned 32 k (pos + 2 ^ k - 1) (omega arith) (omega (arith, pow_pos k)))

-- `kmalloc_aligned` grants exactly the requests that fit behind the rounded position: the block
-- begins at a multiple of the alignment, at or behind the heap position, and ends in the heap at the
-- new position; else nothing changes. The alignment is a power of two, and the rounded position and
-- the size do not pass 32 bits.
pub kmalloc_aligned_lem :
    (size k : ℕ) (s : Memory)
    → s.heap_pos ≤ heap_size
    → k < 31
    → align_up s.heap_pos (2 ^ k) + size < 2 ^ 32
    → let (ptr, s') = kmalloc_aligned size (2 ^ k) s in
      let p = align_up s.heap_pos (2 ^ k) in
      IsAligned (s.heap_pos + 2 ^ k - 1) k p
      × (s.heap_pos ≤ p)
      × ((ptr ≡ some p) × (s'.heap_pos ≡ p + size) × (p + size ≤ heap_size)
          ⊎ (ptr ≡ none) × (s' ≡ s) × (heap_size < p + size))
unfolding kmalloc_aligned
kmalloc_aligned_lem size k s inside hk h =
    let al =
      align_up-IsAligned s.heap_pos k (omega arith) (omega (arith, pow_le k 31 (omega arith))) in
    (
      al,
      omega (arith, al.near),
      elim (Bool-cases (ltb heap_size ((align_up s.heap_pos (2 ^ k) + size) % 2 ^ 32))) [
        | inl full ↦ rw full (inr (refl, refl, ground arith))
        | inr room ↦ rw room (inl (refl, omega arith, ground arith))
      ],
    )

get_or-memset_zero :
    (xs : List ℕ) (n j : ℕ)
    → n ≤ length xs
    → get_or (memset xs 0 n) j 0 ≡ (if ltb j n then 0 else get_or xs j 0)
unfolding memset
get_or-memset_zero xs zero j h = ground arith
get_or-memset_zero [] (suc n) j h = absurd (omega arith)
get_or-memset_zero (x ∷ xs) (suc n) zero h = ground arith
get_or-memset_zero (x ∷ xs) (suc n) (suc j) h =
    get_or-memset_zero xs n j (omega arith) ∙ ground arith

get_or-clear_heap :
    (heap : List ℕ) (p n j : ℕ)
    → p + n ≤ length heap
    → get_or (clear_heap heap p n) j 0 ≡ (if leb p j && ltb j (p + n) then 0 else get_or heap j 0)
unfolding clear_heap
get_or-clear_heap heap zero n j h = get_or-memset_zero heap n j (omega arith) ∙ ground arith
get_or-clear_heap [] (suc p) n j h = absurd (omega arith)
get_or-clear_heap (x ∷ heap) (suc p) n zero h = ground arith
get_or-clear_heap (x ∷ heap) (suc p) n (suc j) h =
    get_or-clear_heap heap p n j (omega arith) ∙ ground arith

-- What `kcalloc` makes of a block of `total` bytes.
cleared :
    (num size total : ℕ) (s : Memory)
    → num * size % 2 ^ 32 ≡ total
    → s.heap_pos + total ≤ heap_size
    → let (ptr, s') = kcalloc num size s in
      (ptr ≡ some s.heap_pos)
      × (s'.heap_pos ≡ (kmalloc total s).1.heap_pos)
      × (s'.heap ≡ clear_heap s.heap s.heap_pos total)
unfolding kcalloc
cleared num size total s e room = ground arith

-- `kcalloc` of a product that fits into 32 bits and into the heap returns the heap position, moves
-- the position as `kmalloc` of the product does, and leaves every byte of the block 0 and every
-- other byte as it was.
kcalloc_lem :
    (num size : ℕ) (s : Memory)
    → num * size < 2 ^ 32
    → s.heap_pos + num * size ≤ heap_size
    → length s.heap ≡ heap_size
    → let (ptr, s') = kcalloc num size s in
      let p = s.heap_pos in
      (ptr ≡ some p)
      × (s'.heap_pos ≡ (kmalloc (num * size) s).1.heap_pos)
      × ((j : ℕ)
          → get_or s'.heap j 0
            ≡ (if leb p j && ltb j (p + num * size) then 0 else get_or s.heap j 0))
kcalloc_lem num size s fits room full =
    let (ptr, moved, block) = cleared num size (num * size) s (omega arith) room in
    (
      ptr,
      moved,
      λ j.
          ap (λ h. get_or h j 0) block
          ∙ get_or-clear_heap s.heap s.heap_pos (num * size) j (omega arith),
    )
