-- ===== src/RamFs/Tests.antt =====
-- The theorems on the RAM file system at a table with two files.
use minimalist_os.Base.{
  ℕ, zero, suc, ◌+◌, ◌*◌, ◌≤◌, ◌<◌, ◌≡◌, refl, List, [], ◌∷◌, true, false, none, some, pos, failure,
  success, arith, get_or, replicate, length-replicate,
}
use minimalist_os.Memory.{Memory, heap_size}
use minimalist_os.Memory.Heap
use minimalist_os.RamFs.{
  RamFs, RamFile, no_file, max_files, max_file_size, ramfs_read, ramfs_write, ramfs_init,
  ramfs_size,
}
use minimalist_os.RamFs.Files
use minimalist_os.RamFs.Files.{ramfs_read-ramfs_write}
use minimalist_os.RamFs.Isolation.{ramfs_read-ramfs_write_other}
use minimalist_os.RamFs.Invariant.{
  Op, create_file, open_file, write, AllValid, present, nil, created, opened, wrote, files_after,
  files_after-AllValid,
}
use minimalist_os.RamFs.Init.{ramfs_init-fails}

-- A file of `size` bytes in slot `i`.
unfoldable file : ℕ → ℕ → RamFile
file i size = record no_file { in_use = true; size = size; start = i * max_file_size }

-- The files in slots 0 and 1; the others are free.
unfoldable small : RamFs
small = record {
  magic = 0;
  files = file 0 5 ∷ file 1 7 ∷ replicate 62 no_file;
  file_data = replicate (max_files * max_file_size) (zero);
}

free : (n i : ℕ) → (get_or (replicate n no_file) i no_file).in_use ≡ false
unfolding no_file
free zero i = refl
free (suc n) zero = refl
free (suc n) (suc i) = free n i

small-IsValid : Files.IsValid small
unfolding small file
small-IsValid = record {
  slots = refl;
  room = length-replicate (max_files * max_file_size) zero;
  start = start_lem;
  size = size_lem;
}
  where
    start_lem :
        (i : ℕ)
        → i < max_files
        → (get_or small.files i no_file).in_use ≡ true
        → (get_or small.files i no_file).start ≡ i * max_file_size
    start_lem zero lt used = refl
    start_lem (suc zero) lt used = refl
    start_lem (suc (suc i)) lt used = absurd (ground (arith, free 62 i))

    size_lem :
        (i : ℕ)
        → i < max_files
        → (get_or small.files i no_file).in_use ≡ true
        → (get_or small.files i no_file).size ≤ max_file_size
    size_lem zero lt used = omega arith
    size_lem (suc zero) lt used = omega arith
    size_lem (suc (suc i)) lt used = absurd (ground (arith, free 62 i))

first_used : (get_or small.files 0 no_file).in_use ≡ true
unfolding small file
first_used = refl

second_used : (get_or small.files 1 no_file).in_use ≡ true
unfolding small file
second_used = refl

second_size : (get_or small.files 1 no_file).size ≡ 7
unfolding small file
second_size = refl

ramfs_read-ramfs_write_example :
    let (status, fs') = ramfs_write 1 (some (1 ∷ 2 ∷ [])) 2 9 (some small) in
    (status ≡ pos 2)
    × (ramfs_read 1 (some (0 ∷ 0 ∷ 0 ∷ [])) 2 9 fs' ≡ (pos 2, some (1 ∷ 2 ∷ 0 ∷ [])))
ramfs_read-ramfs_write_example =
    ramfs_read-ramfs_write small 0 2 9 (1 ∷ 2 ∷ []) (0 ∷ 0 ∷ 0 ∷ []) small-IsValid (omega arith)
      first_used (omega arith) (omega arith) (omega arith) (omega arith)

-- A write that is too long for the slot, and a read behind the end of the other file.
ramfs_read-ramfs_write_other_example :
    let fs' = (ramfs_write 1 (some (1 ∷ 2 ∷ [])) 9 4090 (some small)).1 in
    ramfs_read 2 (some (0 ∷ 0 ∷ 0 ∷ [])) 30 4 fs'
    ≡ ramfs_read 2 (some (0 ∷ 0 ∷ 0 ∷ [])) 30 4 (some small)
ramfs_read-ramfs_write_other_example =
    ramfs_read-ramfs_write_other small 0 1 9 4090 30 4 (1 ∷ 2 ∷ []) (0 ∷ 0 ∷ 0 ∷ []) small-IsValid
      (omega arith) (omega arith) (λ e. absurd (omega arith)) (omega arith) (omega arith)

-- The heap after `heap_init`.
abbrev fresh : Memory
fresh = record { page_bitmap = []; used_pages = 0; heap = []; heap_pos = 0 }

fresh-IsValid : Heap.IsValid fresh
fresh-IsValid = record { inside = omega arith; aligned = refl }

ramfs_init-fails_example :
    let (status, fs, m') = ramfs_init small [] [] [] (none, fresh) in
    (status ≡ failure)
    × (fresh.heap_pos + ramfs_size ≤ heap_size
        → (fs ≡ some (record small { file_data = [] }))
          × ((ramfs_init small [] [] [] (fs, m')).0 ≡ success))
ramfs_init-fails_example = ramfs_init-fails small [] [] [] fresh fresh-IsValid

-- A file is created, opened again, and written to.
abbrev three_ops : List Op
three_ops =
    create_file (some (b'a' ∷ 0 ∷ [])) (some (1 ∷ 2 ∷ [])) 2
    ∷ open_file (some (b'a' ∷ 0 ∷ [])) 0
    ∷ write 1 (some (7 ∷ 8 ∷ [])) 2 9
    ∷ []

files_after-AllValid_example : AllValid (files_after three_ops (some small))
files_after-AllValid_example =
    files_after-AllValid three_ops (some small) (created (opened (wrote (omega arith) nil)))
      (present small small-IsValid)
