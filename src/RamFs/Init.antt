-- ===== src/RamFs/Init.antt =====
-- `ramfs_init` on a fresh kernel heap.
use minimalist_os.Base.{
  ℕ, ◌+◌, ◌*◌, ◌^◌, ◌≤◌, ◌<◌, ◌≡◌, refl, ap, ◌∙◌, List, Option, none, some, success, failure, arith,
  inl, inr,
}
use native.Mathlib.Nat.{mod-eq_of_lt}
use minimalist_os.Memory.{Memory, heap_size, kmalloc}
use minimalist_os.Memory.Heap
use minimalist_os.Memory.Heap.{kmalloc_lem}
use minimalist_os.RamFs.{RamFs, ramfs_init, ramfs_size, set_up, max_files, max_file_size}

-- A request larger than the heap.
kmalloc-none :
    (size : ℕ) (m : Memory)
    → m.heap_pos ≤ heap_size
    → heap_size < size
    → size ≤ 2 ^ 31
    → kmalloc size m ≡ (none, m)
unfolding kmalloc
kmalloc-none size m inside large small =
    ground (arith, mod-eq_of_lt {n = m.heap_pos + size} {m = 2 ^ 32} (omega arith))

module _ (raw : RamFs) (block low : List ℕ) (defaults : List (List ℕ × List ℕ × ℕ)) where
  set_up-none : (first : Option ℕ) → (set_up raw block low defaults first none).0 ≡ failure
  unfolding set_up
  set_up-none none = refl
  set_up-none (some p) = refl

  module _ (m : Memory) (valid : Heap.IsValid m) where
    second_none : (kmalloc (max_files * max_file_size) (kmalloc ramfs_size m).1).0 ≡ none
    second_none = elim (kmalloc_lem ramfs_size m valid (omega arith)) [
      | inl (e, granted) ↦
          ap (λ r. r.0)
            (kmalloc-none (max_files * max_file_size) (kmalloc ramfs_size m).1 granted.valid.inside
              (omega arith) (omega arith))
      | inr (e, same, full) ↦
          ap (λ t. (kmalloc (max_files * max_file_size) t).0) same
          ∙ ap (λ r. r.0)
              (kmalloc-none (max_files * max_file_size) m valid.inside (omega arith) (omega arith))
    ]

    first_some : m.heap_pos + ramfs_size ≤ heap_size → (kmalloc ramfs_size m).0 ≡ some m.heap_pos
    first_some fits = elim (kmalloc_lem ramfs_size m valid (omega arith)) [
      | inl (e, granted) ↦ e
      | inr (e, same, full) ↦ absurd (omega arith)
    ]

    -- On a valid heap `ramfs_init` fails, since the files' data is larger than the whole heap. Where
    -- the heap has room for the table, the call after that reports success, on a file system whose
    -- data pointer is null.
    pub ramfs_init-fails :
        let (status, fs, m') = ramfs_init raw block low defaults (none, m) in
        (status ≡ failure)
        × (m.heap_pos + ramfs_size ≤ heap_size
            → (fs ≡ some (record raw { file_data = low }))
              × ((ramfs_init raw block low defaults (fs, m')).0 ≡ success))
    unfolding ramfs_init set_up
    ramfs_init-fails =
        let first = kmalloc ramfs_size m in
        let m' = (ramfs_init raw block low defaults (none, m)).2 in
        (
          ap (λ o. (set_up raw block low defaults first.0 o).0) second_none ∙ set_up-none first.0,
          λ fits.
              let e : (set_up raw block low defaults first.0
                    (kmalloc (max_files * max_file_size) first.1).0).1
                  ≡ some (record raw { file_data = low }) =
                ap (λ o. (set_up raw block low defaults first.0 o).1) second_none
                ∙ ap (λ o. (set_up raw block low defaults o none).1) (first_some fits) in
              (e, ap (λ f. (ramfs_init raw block low defaults (f, m')).0) e),
        )
