-- ===== src/Vfs.antt =====
-- fs/vfs_simple.c: file descriptors over one sample file. The pointers `read` and `write` of a
-- descriptor are never assigned, and `fs_mount` keeps nothing of its arguments.
pub mod Descriptors
mod Tests
use minimalist_os.Base.{
  ℕ, zero, suc, ◌+◌, ◌-◌, ◌%◌, ◌^◌, List, [], ◌∷◌, Bool, true, false, not, ◌||◌, Option, none, some,
  ℤ, pos, negsuc, success, failure, ltb, leb, ◌==◌, if◌then◌else◌, get_or, set, drop, replicate,
}
use minimalist_os.Base.Search.{find_index}
use minimalist_os.Base.Copy.{copy_at}
use minimalist_os.CString.{memcpy, strlen}

abbrev pub max_open_files : ℕ
max_open_files = 16

pub record Descriptor : Type 0 where
  pub inode : ℕ
  pub offset : ℕ
  pub in_use : Bool

-- The static array `file_descriptors`.
pub record Vfs : Type 0 where
  pub file_descriptors : List Descriptor

-- What a read past the table stands for.
unfoldable pub no_descriptor : Descriptor
no_descriptor = record { inode = 0; offset = 0; in_use = false }

unfoldable pub fs_init : Vfs → Vfs
fs_init s = record s { file_descriptors = replicate max_open_files no_descriptor }

unfoldable pub find_free : Vfs → Option ℕ
find_free s = find_index (λ d. not d.in_use) no_descriptor s.file_descriptors 0 max_open_files

-- Neither the path nor the flags are looked at.
unfoldable pub fs_open : List ℕ → ℕ → Vfs → ℤ × Vfs
fs_open path flags s = elim (find_free s) [
  | none ↦ (failure, s)
  | some fd ↦ (
    pos fd,
    record s {
      file_descriptors =
          set s.file_descriptors fd (record { inode = 1; offset = 0; in_use = true });
    },
  )
]

unfoldable pub descriptor : Vfs → ℕ → Descriptor
descriptor s fd = get_or s.file_descriptors fd no_descriptor

-- `fd < 0 || fd >= MAX_OPEN_FILES || !file_descriptors[fd].in_use`, for a descriptor that is not
-- negative.
unfoldable pub is_bad : ℕ → Vfs → Bool
is_bad fd s = leb max_open_files fd || not (descriptor s fd).in_use

unfoldable pub put_descriptor : ℕ → Descriptor → Vfs → Vfs
put_descriptor fd d s = record s { file_descriptors = set s.file_descriptors fd d }

unfoldable pub fs_close : ℤ → Vfs → ℤ × Vfs
fs_close (negsuc n) s = (failure, s)
fs_close (pos fd) s =
    if is_bad fd s
    then (failure, s)
    else (success, put_descriptor fd (record (descriptor s fd) { in_use = false }) s)

-- The offset is returned as an `int`, so one of 2 ^ 31 or more comes back negative.
unfoldable pub to_int : ℕ → ℤ
to_int n = if ltb n (2 ^ 31) then pos n else negsuc (2 ^ 32 - 1 - n)

unfoldable pub fs_seek : ℤ → ℕ → Vfs → ℤ × Vfs
fs_seek (negsuc n) offset s = (failure, s)
fs_seek (pos fd) offset s =
    if is_bad fd s
    then (failure, s)
    else (to_int offset, put_descriptor fd (record (descriptor s fd) { offset = offset }) s)

-- "Hello from VFS!\n" and its terminator.
abbrev pub sample_data : List ℕ
sample_data =
    b'H' ∷ b'e' ∷ b'l' ∷ b'l' ∷ b'o' ∷ 32 ∷ b'f' ∷ b'r' ∷ b'o' ∷ b'm' ∷ 32 ∷ b'V' ∷ b'F' ∷ b'S'
    ∷ b'!' ∷ 10 ∷ 0 ∷ []

-- The number of bytes that are read: the sum is of 32 bits.
unfoldable pub to_read : ℕ → ℕ → ℕ → ℕ
to_read count offset len = if ltb len ((offset + count) % 2 ^ 32) then len - offset else count

-- Returns the status, the buffer and the state.
unfoldable pub fs_read : ℤ → List ℕ → ℕ → Vfs → ℤ × List ℕ × Vfs
fs_read (negsuc n) buffer count s = (failure, buffer, s)
fs_read (pos fd) buffer count s =
    let d = descriptor s fd in
    let n = to_read count d.offset (strlen sample_data) in
    if is_bad fd s
    then (failure, buffer, s)
    else if leb (strlen sample_data) d.offset
    then (pos 0, buffer, s)
    else (
      to_int n,
      memcpy buffer (drop d.offset sample_data) n,
      put_descriptor fd (record d { offset = (d.offset + n) % 2 ^ 32 }) s,
    )

unfoldable pub fs_write : ℤ → ℕ → Vfs → ℤ × Vfs
fs_write (negsuc n) count s = (failure, s)
fs_write (pos fd) count s =
    let d = descriptor s fd in
    if is_bad fd s
    then (failure, s)
    else (to_int count, put_descriptor fd (record d { offset = (d.offset + count) % 2 ^ 32 }) s)

-- The inode, size, mode and type that are stored; the Booleans say which pointers are non-null.
unfoldable pub fs_stat : Bool → Bool → ℤ × Option (ℕ × ℕ × ℕ × ℕ)
fs_stat false stat = (failure, none)
fs_stat true false = (failure, none)
fs_stat true true = (success, some (1, 16, 0o644, 1))

-- "root\ntmp\n" and its terminator.
abbrev pub listing : List ℕ
listing = b'r' ∷ b'o' ∷ b'o' ∷ b't' ∷ 10 ∷ b't' ∷ b'm' ∷ b'p' ∷ 10 ∷ 0 ∷ []

unfoldable pub fs_list_dir : Bool → Option (List ℕ) → ℕ → ℤ × Option (List ℕ)
fs_list_dir false buffer buffer_size = (failure, buffer)
fs_list_dir true none buffer_size = (failure, none)
fs_list_dir true (some buffer) buffer_size =
    let len = if leb buffer_size (strlen listing) then buffer_size - 1 else strlen listing in
    if buffer_size == 0
    then (failure, some buffer)
    else (pos len, some (set (copy_at buffer 0 listing len) len 0))
