-- ===== src/Loader/Space.antt =====
-- The memory for programs: what is granted, and what is given back.
use native.Mathlib.Nat.{mod-eq_of_lt}
use minimalist_os.Base.{
  ℕ, ◌+◌, ◌-◌, ◌%◌, ◌^◌, ◌≤◌, ◌<◌, ◌≡◌, ◌⊎◌, refl, none, some, ltb, arith, inl, inr, Bool-cases,
}
use minimalist_os.Base.Align.{IsAligned, pow_le}
use minimalist_os.Memory.{align_up}
use minimalist_os.Memory.Heap.{align_up-IsAligned}
use minimalist_os.Loader.{Loader, max_program_size, program_alloc_memory, program_free_memory}

-- An allocation with an alignment of `2 ^ k` bytes returns the next multiple of it, and the block lies
-- within the megabyte for programs; or it fails, since no such block is left, and changes nothing.
-- Giving the block back at once leaves in use what lies below it. The hypotheses: the memory in use
-- is within the megabyte, and the end of the block does not leave 32 bits.
program_alloc_memory_lem :
    (size k : ℕ) (l : Loader)
    → l.program_memory_used ≤ max_program_size
    → k < 31
    → align_up l.program_memory_used (2 ^ k) + size < 2 ^ 32
    → let (ptr, l') = program_alloc_memory size (2 ^ k) l in
      let p = align_up l.program_memory_used (2 ^ k) in
      IsAligned (l.program_memory_used + 2 ^ k - 1) k p
      × ((ptr ≡ some p)
            × (l.program_memory_used ≤ p)
            × (p + size ≤ max_program_size)
            × (l'.program_memory_used ≡ p + size)
            × ((program_free_memory p size l').program_memory_used ≡ p)
          ⊎ (ptr ≡ none) × (l' ≡ l) × (max_program_size < p + size))
unfolding program_alloc_memory program_free_memory
program_alloc_memory_lem size k l inside hk small =
    let p = align_up l.program_memory_used (2 ^ k) in
    let al =
      align_up-IsAligned l.program_memory_used k (omega arith)
        (omega (arith, pow_le k 31 (omega arith))) in
    let sum : (p + size) % 2 ^ 32 ≡ p + size = mod-eq_of_lt {n = p + size} {m = 2 ^ 32} small in
    (
      al,
      elim (Bool-cases (ltb max_program_size ((p + size) % 2 ^ 32))) [
        | inl full ↦ rw full (inr (refl, refl, ground arith))
        | inr room ↦ rw room (inl (refl, omega (arith, al.near), ground arith, sum, ground arith))
      ],
    )
