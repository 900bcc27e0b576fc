-- ===== src/RamFs/Invariant.antt =====
-- The invariant of the table of files, and sequences of operations.
use mathlib.Core.Path.{subst}
use Prim.Native.Nat.{bit_and}
use native.Mathlib.Nat.{mod-eq_of_lt}
use minimalist_os.Base.{
  ℕ, ◌+◌, ◌-◌, ◌*◌, ◌%◌, ◌^◌, ◌≤◌, ◌<◌, ◌≡◌, refl, sym, ◌∙◌, List, [], ◌∷◌, true, not, Option, none,
  some, ltb, leb, ◌==◌, ◌||◌, ℤ, arith, get_or, set, length, length-set, inl, inr, Bool-cases,
  Option-cases, get_or-set_self, get_or-set_ne,
}
use minimalist_os.Base.Search.{find_index-Found}
use minimalist_os.Base.Copy.{copy_at, length-copy_at}
use minimalist_os.RamFs.{
  RamFs, RamFile, no_file, max_files, max_file_size, bytes_to_write, put_content, new_file, written,
  ramfs_find_file, ramfs_find_free_slot, ramfs_create_file, search_again, ramfs_open, ramfs_write,
  o_creat,
}
use minimalist_os.RamFs.Files.{IsValid}

-- The state is valid where the file system is there.
pub data AllValid : Option RamFs → Type 0 where
  absent : AllValid none
  present : (fs : RamFs) → IsValid fs → AllValid (some fs)

-- What a file in slot `i` has to satisfy.
pub record FitsSlot (i : ℕ) (f : RamFile) : Type 0 where
  pub start : f.in_use ≡ true → f.start ≡ i * max_file_size
  pub size : f.in_use ≡ true → f.size ≤ max_file_size

entry-FitsSlot :
    (fs : RamFs) (i j : ℕ) (f : RamFile)
    → IsValid fs
    → i < max_files
    → j < max_files
    → FitsSlot i f
    → FitsSlot j (get_or (set fs.files i f) j no_file)
entry-FitsSlot fs i j f valid lt lt' fits = elim (Bool-cases (i == j)) [
  | inl e ↦
      let same : i ≡ j = ground arith in
      subst (λ t. FitsSlot t (get_or (set fs.files i f) t no_file)) same
        (subst (λ g. FitsSlot i g)
          (sym (get_or-set_self fs.files i f no_file (omega (arith, valid.slots)))) fits)
  | inr other ↦
      subst (λ g. FitsSlot j g) (sym (get_or-set_ne fs.files i j f no_file (ground arith)))
        (record { start = valid.start j lt'; size = valid.size j lt' })
]

-- A file that fits its slot may be written there.
set-IsValid :
    (fs : RamFs) (i : ℕ) (f : RamFile) (bytes : List ℕ)
    → IsValid fs
    → i < max_files
    → FitsSlot i f
    → length bytes ≡ length fs.file_data
    → IsValid (record fs { files = set fs.files i f; file_data = bytes })
set-IsValid fs i f bytes valid lt fits same = record {
  slots = length-set fs.files i f ∙ valid.slots;
  room = same ∙ valid.room;
  start = λ j lt'. (entry-FitsSlot fs i j f valid lt lt' fits).start;
  size = λ j lt'. (entry-FitsSlot fs i j f valid lt lt' fits).size;
}

length-put_content :
    (content : Option (List ℕ)) (size offset : ℕ) (bytes : List ℕ)
    → length (put_content content size offset bytes) ≡ length bytes
unfolding put_content
length-put_content none size offset bytes = refl
length-put_content (some content) size offset bytes =
    ground (arith, length-copy_at bytes offset content size)

new_file-FitsSlot :
    (f : RamFile) (i : ℕ) (name : List ℕ) (size : ℕ)
    → size ≤ max_file_size
    → FitsSlot i (new_file f i name size)
unfolding new_file
new_file-FitsSlot f i name size small = record { start = λ used. refl; size = λ used. small }

free_slot-lt : (fs : RamFs) (i : ℕ) → ramfs_find_free_slot fs ≡ some i → i < max_files
unfolding ramfs_find_free_slot
free_slot-lt fs i free =
    let f = find_index-Found (λ f. not f.in_use) no_file fs.files 0 max_files i free in
    omega (arith, f.below)

-- A name cannot be created twice, so the outcome depends on two searches.
create-AllValid :
    (name : List ℕ) (content : Option (List ℕ)) (size : ℕ) (fs : RamFs)
    → IsValid fs
    → AllValid (ramfs_create_file (some name) content size (some fs)).1
unfolding ramfs_create_file
create-AllValid name content size fs valid = elim (Bool-cases (ltb max_file_size size)) [
  | inl large ↦ rw large (present fs valid)
  | inr small ↦ elim (Option-cases (ramfs_find_file (some name) fs)) [
    | inr (i, found) ↦ rw small (rw (found, ramfs_create_file) (present fs valid))
    | inl missing ↦ elim (Option-cases (ramfs_find_free_slot fs)) [
      | inl full ↦
          rw small
            (rw (missing, ramfs_create_file) (rw (full, ramfs_create_file) (present fs valid)))
      | inr (i, free) ↦ rw small (
          rw (missing, ramfs_create_file)
            (rw (free, ramfs_create_file)
              (present _ (
                set-IsValid fs i (new_file (get_or fs.files i no_file) i name size)
                  (put_content content size (i * max_file_size) fs.file_data) valid
                  (free_slot-lt fs i free)
                  (new_file-FitsSlot (get_or fs.files i no_file) i name size (ground arith))
                  (length-put_content content size (i * max_file_size) fs.file_data)))))
    ]
  ]
]

search_again-AllValid :
    (path : List ℕ) (r : ℤ × Option RamFs) → AllValid r.1 → AllValid (search_again path r).1
unfolding search_again
search_again-AllValid path (status, none) valid = absent
search_again-AllValid path (status, some fs) valid = valid

open-AllValid :
    (path : List ℕ) (flags : ℕ) (fs : RamFs)
    → IsValid fs
    → AllValid (ramfs_open (some path) flags (some fs)).1
unfolding ramfs_open
open-AllValid path flags fs valid = elim (Option-cases (ramfs_find_file (some path) fs)) [
  | inr (i, found) ↦ rw (found, ramfs_open) (present fs valid)
  | inl missing ↦ elim (Bool-cases (bit_and flags o_creat == 0)) [
    | inl read_only ↦ rw (missing, ramfs_open) (rw read_only (present fs valid))
    | inr create ↦
        rw (missing, ramfs_open)
          (rw create (
            search_again-AllValid path (ramfs_create_file (some path) none 0 (some fs))
              (create-AllValid path none 0 fs valid)))
  ]
]

-- A write stays within the slot, unless the sum of offset and count wraps around.
bytes_to_write_bound :
    (count offset : ℕ)
    → offset < max_file_size
    → offset + count < 2 ^ 32
    → offset + bytes_to_write count offset ≤ max_file_size
unfolding bytes_to_write
bytes_to_write_bound count offset inside small =
    ground (arith, mod-eq_of_lt {n = offset + count} {m = 2 ^ 32} small)

written-IsValid :
    (fs : RamFs) (i n offset : ℕ) (buffer : List ℕ)
    → IsValid fs
    → i < max_files
    → offset + n ≤ max_file_size
    → IsValid (written fs i buffer n offset)
unfolding written
written-IsValid fs i n offset buffer valid lt fits =
    let f = get_or fs.files i no_file in
    let bytes = copy_at fs.file_data (f.start + offset) buffer n in
    let same = length-copy_at fs.file_data (f.start + offset) buffer n in
    elim (Bool-cases (ltb f.size ((offset + n) % 2 ^ 32))) [
      | inl longer ↦ rw longer (
          set-IsValid fs i (record f { size = (offset + n) % 2 ^ 32 }) bytes valid lt
            (record { start = valid.start i lt; size = λ used. omega arith }) same)
      | inr covered ↦ rw covered (record {
        slots = valid.slots;
        room = same ∙ valid.room;
        start = valid.start;
        size = valid.size;
      })
    ]

write-AllValid :
    (inode count offset : ℕ) (buffer : List ℕ) (fs : RamFs)
    → IsValid fs
    → offset + count < 2 ^ 32
    → AllValid (ramfs_write inode (some buffer) count offset (some fs)).1
unfolding ramfs_write
write-AllValid inode count offset buffer fs valid small =
    elim (Bool-cases (inode == 0 || ltb max_files inode)) [
      | inl bad ↦ rw bad (present fs valid)
      | inr good ↦ elim (Bool-cases (not (get_or fs.files (inode - 1) no_file).in_use)) [
        | inl unused ↦ rw good (rw unused (present fs valid))
        | inr used ↦ elim (Bool-cases (leb max_file_size offset)) [
          | inl past ↦ rw good (rw used (rw past (present fs valid)))
          | inr inside ↦ rw good (
              rw used (
                rw inside (
                  present _ (
                    written-IsValid fs (inode - 1) (bytes_to_write count offset) offset buffer valid
                      (ground arith) (bytes_to_write_bound count offset (ground arith) small)))))
        ]
      ]
    ]

-- The calls that can change the files.
pub data Op : Type 0 where
  create_file : Option (List ℕ) → Option (List ℕ) → ℕ → Op
  open_file : Option (List ℕ) → ℕ → Op
  write : ℕ → Option (List ℕ) → ℕ → ℕ → Op

pub step : Op → Option RamFs → Option RamFs
step (create_file name content size) fs = (ramfs_create_file name content size fs).1
step (open_file path flags) fs = (ramfs_open path flags fs).1
step (write inode buffer count offset) fs = (ramfs_write inode buffer count offset fs).1

pub files_after : List Op → Option RamFs → Option RamFs
files_after [] fs = fs
files_after (op ∷ ops) fs = files_after ops (step op fs)

-- The sum of a write's offset and count stays in 32 bits.
pub data NoWrap : List Op → Type 0 where
  nil : NoWrap []
  created :
      {name content : Option (List ℕ)} {size : ℕ} {ops : List Op}
      → NoWrap ops
      → NoWrap (create_file name content size ∷ ops)
  opened :
      {path : Option (List ℕ)} {flags : ℕ} {ops : List Op}
      → NoWrap ops
      → NoWrap (open_file path flags ∷ ops)
  wrote :
      {inode : ℕ} {buffer : Option (List ℕ)} {count offset : ℕ} {ops : List Op}
      → offset + count < 2 ^ 32
      → NoWrap ops
      → NoWrap (write inode buffer count offset ∷ ops)

create_file-AllValid :
    (name content : Option (List ℕ)) (size : ℕ) (fs : Option RamFs)
    → AllValid fs
    → AllValid (ramfs_create_file name content size fs).1
unfolding ramfs_create_file
create_file-AllValid name content size none valid = absent
create_file-AllValid none content size (some fs) valid = valid
create_file-AllValid (some name) content size (some fs) (present _ valid) =
    create-AllValid name content size fs valid

open_file-AllValid :
    (path : Option (List ℕ)) (flags : ℕ) (fs : Option RamFs)
    → AllValid fs
    → AllValid (ramfs_open path flags fs).1
unfolding ramfs_open
open_file-AllValid path flags none valid = absent
open_file-AllValid none flags (some fs) valid = valid
open_file-AllValid (some path) flags (some fs) (present _ valid) = open-AllValid path flags fs valid

write-AllValid_op :
    (inode : ℕ) (buffer : Option (List ℕ)) (count offset : ℕ) (fs : Option RamFs)
    → AllValid fs
    → offset + count < 2 ^ 32
    → AllValid (ramfs_write inode buffer count offset fs).1
unfolding ramfs_write
write-AllValid_op inode buffer count offset none valid small = absent
write-AllValid_op inode none count offset (some fs) valid small = valid
write-AllValid_op inode (some buffer) count offset (some fs) (present _ valid) small =
    write-AllValid inode count offset buffer fs valid small

-- Every sequence of creations, openings and writes keeps a valid file system valid: each file stays
-- in its own part of the data and no longer than that, where no write has an offset and a count whose
-- sum leaves 32 bits.
pub files_after-AllValid :
    (ops : List Op) (fs : Option RamFs) → NoWrap ops → AllValid fs → AllValid (files_after ops fs)
unfolding files_after step
files_after-AllValid [] fs nil valid = valid
files_after-AllValid (create_file name content size ∷ ops) fs (created rest) valid =
    files_after-AllValid ops (ramfs_create_file name content size fs).1 rest
      (create_file-AllValid name content size fs valid)
files_after-AllValid (open_file path flags ∷ ops) fs (opened rest) valid =
    files_after-AllValid ops (ramfs_open path flags fs).1 rest
      (open_file-AllValid path flags fs valid)
files_after-AllValid (write inode buffer count offset ∷ ops) fs (wrote small rest) valid =
    files_after-AllValid ops (ramfs_write inode buffer count offset fs).1 rest
      (write-AllValid_op inode buffer count offset fs valid small)
