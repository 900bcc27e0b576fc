-- ===== src/RamFs.antt =====
-- fs/ramfs.c: the RAM file system.
pub mod Files
pub mod Isolation
pub mod Init
pub mod Invariant
mod Tests
use Prim.Native.Nat.{bit_and}
use minimalist_os.Base.{
  ℕ, zero, suc, ◌+◌, ◌-◌, ◌*◌, ◌%◌, ◌^◌, List, [], ◌∷◌, Bool, true, false, not, ◌&&◌, ◌||◌, Option,
  none, some, ℤ, pos, negsuc, success, failure, is_zero, ltb, leb, ◌==◌, if◌then◌else◌, get_or, set,
  drop, replicate,
}
use minimalist_os.Base.Search.{find_index}
use minimalist_os.Base.Copy.{copy_at}
use minimalist_os.CString.{strcmp, memcpy, store_name}
use minimalist_os.Memory.{Memory, kmalloc, kfree}

abbrev pub max_files : ℕ
max_files = 64

abbrev pub max_file_size : ℕ
max_file_size = 4096

abbrev pub ramfs_magic : ℕ
ramfs_magic = 0x52414D46

abbrev pub max_filename_len : ℕ
max_filename_len = 256

abbrev pub o_creat : ℕ
o_creat = 0x40

-- sizeof(ramfs_t): the magic, 64 files of 272 bytes, and the pointer.
abbrev pub ramfs_size : ℕ
ramfs_size = 4 + 64 * 272 + 4

-- `start` is the field `data` of the source.
pub record RamFile : Type 0 where
  pub name : List ℕ
  pub size : ℕ
  pub start : ℕ
  pub in_use : Bool
  pub mode : ℕ

-- `file_data` is the memory from the address in that field on.
pub record RamFs : Type 0 where
  pub magic : ℕ
  pub files : List RamFile
  pub file_data : List ℕ

-- What a read past the table of files stands for.
unfoldable pub no_file : RamFile
no_file = record {
  name = replicate max_filename_len 0;
  size = 0;
  start = 0;
  in_use = false;
  mode = 0;
}

unfoldable pub is_named : List ℕ → RamFile → Bool
is_named name f = f.in_use && is_zero (strcmp f.name name)

unfoldable pub ramfs_find_file : Option (List ℕ) → RamFs → Option ℕ
ramfs_find_file none fs = none
ramfs_find_file (some name) fs = find_index (is_named name) no_file fs.files 0 max_files

unfoldable pub ramfs_find_free_slot : RamFs → Option ℕ
ramfs_find_free_slot fs = find_index (λ f. not f.in_use) no_file fs.files 0 max_files

-- The file that is written into slot `i`.
unfoldable pub new_file : RamFile → ℕ → List ℕ → ℕ → RamFile
new_file f i name size = record f {
  name = store_name max_filename_len f.name name;
  size = size;
  start = i * max_file_size;
  in_use = true;
  mode = 0o644;
}

-- The content, where it is given, is copied to the slot's data.
unfoldable pub put_content : Option (List ℕ) → ℕ → ℕ → List ℕ → List ℕ
put_content none size offset file_data = file_data
put_content (some content) size offset file_data =
    if ltb 0 size then copy_at file_data offset content size else file_data

unfoldable pub ramfs_create_file :
    Option (List ℕ) → Option (List ℕ) → ℕ → Option RamFs → ℤ × Option RamFs
ramfs_create_file name content size none = (failure, none)
ramfs_create_file none content size (some fs) = (failure, some fs)
ramfs_create_file (some name) content size (some fs) =
    if ltb max_file_size size then (failure, some fs) else elim (ramfs_find_file (some name) fs) [
      | some i ↦ (failure, some fs)
      | none ↦ elim (ramfs_find_free_slot fs) [
        | none ↦ (failure, some fs)
        | some i ↦ (
          success,
          some (record fs {
            files = set fs.files i (new_file (get_or fs.files i no_file) i name size);
            file_data = put_content content size (i * max_file_size) fs.file_data;
          }),
        )
      ]
    ]

-- The inode of a search result.
unfoldable pub inode_of : Option ℕ → ℤ
inode_of none = failure
inode_of (some i) = pos (i + 1)

unfoldable pub search_again : List ℕ → ℤ × Option RamFs → ℤ × Option RamFs
search_again path (status, none) = (failure, none)
search_again path (status, some fs) =
    (if is_zero status then inode_of (ramfs_find_file (some path) fs) else failure, some fs)

unfoldable pub ramfs_open : Option (List ℕ) → ℕ → Option RamFs → ℤ × Option RamFs
ramfs_open path flags none = (failure, none)
ramfs_open none flags (some fs) = (failure, some fs)
ramfs_open (some path) flags (some fs) = elim (ramfs_find_file (some path) fs) [
  | some i ↦ (pos (i + 1), some fs)
  | none ↦
      if bit_and flags o_creat == 0
      then (failure, some fs)
      else search_again path (ramfs_create_file (some path) none 0 (some fs))
]

unfoldable pub ramfs_close : ℕ → Option RamFs → ℤ
ramfs_close inode none = failure
ramfs_close inode (some fs) = if inode == 0 || ltb max_files inode then failure else success

-- The number of bytes that are read: the sum is of 32 bits.
unfoldable pub bytes_to_read : ℕ → ℕ → ℕ → ℕ
bytes_to_read count offset size =
    if ltb size ((offset + count) % 2 ^ 32) then size - offset else count

-- Returns the status and the buffer.
unfoldable pub ramfs_read : ℕ → Option (List ℕ) → ℕ → ℕ → Option RamFs → ℤ × Option (List ℕ)
ramfs_read inode buffer count offset none = (failure, buffer)
ramfs_read inode none count offset (some fs) = (failure, none)
ramfs_read inode (some buffer) count offset (some fs) =
    let f = get_or fs.files (inode - 1) no_file in
    let n = bytes_to_read count offset f.size in
    if inode == 0 || ltb max_files inode
    then (failure, some buffer)
    else if not f.in_use
    then (failure, some buffer)
    else if leb f.size offset
    then (pos 0, some buffer)
    else (pos n, some (memcpy buffer (drop (f.start + offset) fs.file_data) n))

unfoldable pub bytes_to_write : ℕ → ℕ → ℕ
bytes_to_write count offset =
    if ltb max_file_size ((offset + count) % 2 ^ 32) then max_file_size - offset else count

-- The state after `n` bytes were written at `offset` of the file in slot `i`.
unfoldable pub written : RamFs → ℕ → List ℕ → ℕ → ℕ → RamFs
written fs i buffer n offset =
    let f = get_or fs.files i no_file in
    record fs {
      file_data = copy_at fs.file_data (f.start + offset) buffer n;
      files =
          if ltb f.size ((offset + n) % 2 ^ 32)
          then set fs.files i (record f { size = (offset + n) % 2 ^ 32 })
          else fs.files;
    }

unfoldable pub ramfs_write : ℕ → Option (List ℕ) → ℕ → ℕ → Option RamFs → ℤ × Option RamFs
ramfs_write inode buffer count offset none = (failure, none)
ramfs_write inode none count offset (some fs) = (failure, some fs)
ramfs_write inode (some buffer) count offset (some fs) =
    let f = get_or fs.files (inode - 1) no_file in
    let n = bytes_to_write count offset in
    if inode == 0 || ltb max_files inode
    then (failure, some fs)
    else if not f.in_use
    then (failure, some fs)
    else if leb max_file_size offset
    then (failure, some fs)
    else (pos n, some (written fs (inode - 1) buffer n offset))

-- The fields of `vfs_stat_t` that are filled in; the type is always VFS_TYPE_FILE.
pub record Stat : Type 0 where
  pub inode : ℕ
  pub size : ℕ
  pub mode : ℕ
  pub kind : ℕ

unfoldable pub ramfs_stat : Option (List ℕ) → Bool → Option RamFs → ℤ × Option Stat
ramfs_stat path stat none = (failure, none)
ramfs_stat path false (some fs) = (failure, none)
ramfs_stat path true (some fs) = elim (ramfs_find_file path fs) [
  | none ↦ (failure, none)
  | some i ↦
      let f = get_or fs.files i no_file in
      (success, some (record { inode = i + 1; size = f.size; mode = f.mode; kind = 1 }))
]

-- The loop of `ramfs_init` over the files.
unfoldable pub clear_files : List RamFile → List RamFile
clear_files [] = []
clear_files (f ∷ fs) =
    record f { in_use = false; size = 0; start = 0; name = set f.name 0 0; mode = 0o644 }
    ∷ clear_files fs

-- The default files.
unfoldable pub fill : List (List ℕ × List ℕ × ℕ) → Option RamFs → Option RamFs
fill [] fs = fs
fill ((name, content, size) ∷ rest) fs =
    fill rest (ramfs_create_file (some name) (some content) size fs).1

-- `ramfs_init` with the two results of `kmalloc`: `raw` and `block` are what the heap holds in the two
-- blocks, `low` is the memory at address 0, where a null `file_data` points, and `defaults` are the
-- three files that are created.
unfoldable pub set_up :
    RamFs → List ℕ → List ℕ → List (List ℕ × List ℕ × ℕ) → Option ℕ → Option ℕ → ℤ × Option RamFs
set_up raw block low defaults none second = (failure, none)
set_up raw block low defaults (some p) none = (failure, some (record raw { file_data = low }))
set_up raw block low defaults (some p) (some q) = (
  success,
  fill defaults
      (some (record raw { magic = ramfs_magic; files = clear_files raw.files; file_data = block })),
)

-- The second block is asked for only where the first was granted.
unfoldable pub ramfs_init :
    RamFs
    → List ℕ
    → List ℕ
    → List (List ℕ × List ℕ × ℕ)
    → Option RamFs × Memory
    → ℤ × Option RamFs × Memory
ramfs_init raw block low defaults (some fs, m) = (success, some fs, m)
ramfs_init raw block low defaults (none, m) =
    let first = kmalloc ramfs_size m in
    let second = kmalloc (max_files * max_file_size) first.1 in
    let r = set_up raw block low defaults first.0 second.0 in
    (
      r.0,
      r.1,
      elim first.0 [
        | none ↦ first.1
        | some p ↦ elim second.0 [ none ↦ kfree first.0 second.1 | some q ↦ second.1 ]
      ],
    )
