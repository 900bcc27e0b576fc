-- ===== src/BlockFs.antt =====
-- fs/filesystem_enhanced.c, include/filesystem.h: a file system of 64 files in 2048 blocks, with a
-- bitmap of the used ones.
pub mod Blocks
pub mod Names
pub mod Calls
pub mod Delete
pub mod Content
mod Tests
use Prim.Native.Nat.{bit_and}
use minimalist_os.Base.{
  ℕ, zero, suc, ◌+◌, ◌-◌, ◌*◌, ◌/◌, ◌%◌, ◌^◌, List, [], ◌∷◌, Bool, true, false, Option, none, some,
  ℤ, pos, negsuc, success, failure, is_zero, ltb, leb, ◌==◌, if◌then◌else◌, get_or, set, drop,
  replicate,
}
use minimalist_os.Base.Bits.{test_bit, set_bit}
use minimalist_os.Base.Bitmap.{mark_free}
use minimalist_os.Base.Copy.{copy_at}
use minimalist_os.Base.Search.{find_index}
use minimalist_os.CString.{strcmp, memcpy, strlen, store_name}
use minimalist_os.Vfs.{to_int}

abbrev pub max_filename_len : ℕ
max_filename_len = 256

abbrev pub max_files : ℕ
max_files = 64

abbrev pub block_size : ℕ
block_size = 512

abbrev pub fs_size : ℕ
fs_size = 1024 * 1024

-- The words of the bitmap.
abbrev pub bitmap_words : ℕ
bitmap_words = fs_size / block_size / 32

abbrev pub file_type_regular : ℕ
file_type_regular = 1

abbrev pub file_type_dir : ℕ
file_type_dir = 2

abbrev pub file_create : ℕ
file_create = 0x08

pub record FileEntry : Type 0 where
  pub filename : List ℕ
  pub size : ℕ
  pub start_block : ℕ
  pub type : ℕ
  pub flags : ℕ
  pub creation_time : ℕ
  pub modify_time : ℕ

pub record FileSystem : Type 0 where
  pub bytes : List ℕ
  pub bitmap : List ℕ
  pub files : List FileEntry
  pub file_count : ℕ
  pub next_block : ℕ

unfoldable pub no_entry : FileEntry
no_entry = record {
  filename = replicate max_filename_len 0;
  size = 0;
  start_block = 0;
  type = 0;
  flags = 0;
  creation_time = 0;
  modify_time = 0;
}

unfoldable pub entry : FileSystem → ℕ → FileEntry
entry s i = get_or s.files i no_entry

-- The inner loop of `alloc_block`: the first of `n` bits of a word, from the `j`-th on, that is off.
unfoldable pub free_bit : ℕ → ℕ → ℕ → Option ℕ
free_bit word j zero = none
free_bit word j (suc n) =
    let rest = free_bit word (suc j) n in if test_bit word j then rest else some j

-- The outer loop: `n` words are left, from the `i`-th on; a word whose bits are all on is passed over.
unfoldable pub free_word : List ℕ → ℕ → ℕ → Option (ℕ × ℕ)
free_word bitmap i zero = none
free_word bitmap i (suc n) =
    let rest = free_word bitmap (suc i) n in
    let word = get_or bitmap i 0 in
    if word == 0xFFFFFFFF
    then rest
    else elim (free_bit word 0 32) [ some j ↦ some (i, j) | none ↦ rest ]

-- Returns the block, 0 if none is free.
unfoldable pub alloc_block : FileSystem → ℕ × FileSystem
alloc_block s = elim (free_word s.bitmap 0 bitmap_words) [
  | none ↦ (0, s)
  | some (i, j) ↦
      (i * 32 + j, record s { bitmap = set s.bitmap i (set_bit (get_or s.bitmap i 0) j) })
]

unfoldable pub free_block : ℕ → FileSystem → FileSystem
free_block block s =
    if ltb (block / 32) bitmap_words then record s { bitmap = mark_free s.bitmap block } else s

unfoldable pub is_file : List ℕ → FileEntry → Bool
is_file name f = is_zero (strcmp f.filename name)

unfoldable pub find_file : List ℕ → FileSystem → Option ℕ
find_file name s = find_index (is_file name) no_entry s.files 0 s.file_count

unfoldable pub new_entry : FileEntry → List ℕ → ℕ → ℕ → FileEntry
new_entry old name type start_block = record {
  filename = store_name max_filename_len old.filename name;
  size = 0;
  start_block = start_block;
  type = type;
  flags = 0;
  creation_time = 0;
  modify_time = 0;
}

-- The entry is filled in before the result of `alloc_block` is tested.
unfoldable pub fs_create : List ℕ → ℕ → FileSystem → ℤ × FileSystem
fs_create name type s =
    let (block, s') = alloc_block s in
    let s'' = record s' {
      files = set s'.files s.file_count (new_entry (entry s s.file_count) name type block);
    } in
    if leb max_files s.file_count then (failure, s) else elim (find_file name s) [
      | some _ ↦ (failure, s)
      | none ↦
          if block == 0
          then (failure, s'')
          else (pos s.file_count, record s'' { file_count = s.file_count + 1 })
    ]

-- The first loop of `fs_delete`: `n` blocks from `block` on.
unfoldable pub free_blocks : ℕ → ℕ → FileSystem → FileSystem
free_blocks zero block s = s
free_blocks (suc n) block s = free_blocks n (block + 1) (free_block block s)

-- The second one: `n` entries from the `i`-th on are taken from the one behind.
unfoldable pub shift_entries : ℕ → ℕ → List FileEntry → List FileEntry
shift_entries zero i files = files
shift_entries (suc n) i files =
    shift_entries n (i + 1) (set files i (get_or files (i + 1) no_entry))

unfoldable pub blocks_of : ℕ → ℕ
blocks_of size = (size + block_size - 1) % 2 ^ 32 / block_size

unfoldable pub fs_delete : List ℕ → FileSystem → ℤ × FileSystem
fs_delete name s = elim (find_file name s) [
  | none ↦ (failure, s)
  | some i ↦
      let f = entry s i in
      let s' = free_blocks (blocks_of f.size) f.start_block s in
      (
        success,
        record s' {
          files = shift_entries (s.file_count - 1 - i) i s.files;
          file_count = s.file_count - 1;
        },
      )
]

-- The descriptor of a file is its place in the table.
unfoldable pub fs_open : List ℕ → ℕ → FileSystem → ℤ × FileSystem
fs_open name mode s = elim (find_file name s) [
  | some i ↦ (pos i, s)
  | none ↦
      if bit_and mode file_create == 0 then (failure, s) else fs_create name file_type_regular s
]

unfoldable pub fs_close : ℕ → FileSystem → ℤ × FileSystem
fs_close fd s = (success, s)

-- Reads from the start of the file, at a descriptor that is not negative. Returns the status and the
-- buffer.
unfoldable pub fs_read : ℕ → List ℕ → ℕ → FileSystem → ℤ × List ℕ
fs_read fd buffer count s =
    let f = entry s fd in
    let n = if ltb f.size count then f.size else count in
    if leb s.file_count fd
    then (failure, buffer)
    else (to_int n, memcpy buffer (drop (f.start_block * block_size) s.bytes) n)

-- The loop of `fs_write`: `n` more blocks; it ends early when there is none.
unfoldable pub alloc_blocks : ℕ → FileSystem → Bool × FileSystem
alloc_blocks zero s = (true, s)
alloc_blocks (suc n) s =
    let (block, s') = alloc_block s in
    let rest = alloc_blocks n s' in if block == 0 then (false, s') else rest

-- The end of `fs_write`: the bytes go behind those that the file has. The source does not test that
-- they fit into the data: there, bytes too many run into the bitmap and the table of files; here they
-- are dropped, so what is proved of a write has the condition that it stays inside.
unfoldable pub append_bytes : ℕ → List ℕ → ℕ → FileSystem → FileSystem
append_bytes fd buffer count s =
    let f = entry s fd in
    record s {
      bytes = copy_at s.bytes (f.start_block * block_size + f.size) buffer count;
      files = set s.files fd (record f { size = (f.size + count) % 2 ^ 32; modify_time = 0 });
    }

unfoldable pub fs_write : ℕ → List ℕ → ℕ → FileSystem → ℤ × FileSystem
fs_write fd buffer count s =
    let f = entry s fd in
    let needed = (f.size + count + block_size - 1) % 2 ^ 32 / block_size in
    let (enough, s') = alloc_blocks (needed - blocks_of f.size) s in
    if leb s.file_count fd
    then (failure, s)
    else if enough
    then (to_int count, append_bytes fd buffer count s')
    else (failure, s')

unfoldable pub fs_seek : ℕ → ℕ → FileSystem → ℤ
fs_seek fd position s =
    if leb s.file_count fd
    then failure
    else if ltb (entry s fd).size position
    then failure
    else to_int position

-- The loop of `fs_list` has no effect.
unfoldable pub fs_list : List ℕ → FileSystem → ℤ
fs_list dirname s = success

unfoldable pub get_file_size : List ℕ → FileSystem → ℕ
get_file_size name s = elim (find_file name s) [ some i ↦ (entry s i).size | none ↦ 0 ]

-- A file that `fs_init` creates and fills, if its creation succeeds.
unfoldable pub add_file : List ℕ → List ℕ → FileSystem → FileSystem
add_file name content s =
    let (fd, s') = fs_create name file_type_regular s in
    elim fd [ pos i ↦ (fs_write i content (strlen content) s').1 | negsuc _ ↦ s' ]

-- A cleared file system whose first four blocks are used.
unfoldable pub cleared_fs : FileSystem
cleared_fs = record {
  bytes = replicate fs_size 0;
  bitmap = set (replicate bitmap_words 0) 0 0x0F;
  files = replicate max_files no_entry;
  file_count = 0;
  next_block = 0;
}

-- "/"
abbrev pub root_name : List ℕ
root_name = b'/' ∷ 0 ∷ []

-- "test.txt"
abbrev pub test_name : List ℕ
test_name = b't' ∷ b'e' ∷ b's' ∷ b't' ∷ b'.' ∷ b't' ∷ b'x' ∷ b't' ∷ 0 ∷ []

-- "Hello, File System!\nThis is a test file.\n"
abbrev pub test_content : List ℕ
test_content =
    b'H' ∷ b'e' ∷ b'l' ∷ b'l' ∷ b'o' ∷ b',' ∷ b' ' ∷ b'F' ∷ b'i' ∷ b'l' ∷ b'e' ∷ b' ' ∷ b'S' ∷ b'y'
    ∷ b's' ∷ b't' ∷ b'e' ∷ b'm' ∷ b'!' ∷ 10 ∷ b'T' ∷ b'h' ∷ b'i' ∷ b's' ∷ b' ' ∷ b'i' ∷ b's' ∷ b' '
    ∷ b'a' ∷ b' ' ∷ b't' ∷ b'e' ∷ b's' ∷ b't' ∷ b' ' ∷ b'f' ∷ b'i' ∷ b'l' ∷ b'e' ∷ b'.' ∷ 10 ∷ 0
    ∷ []

-- "welcome.txt"
abbrev pub welcome_name : List ℕ
welcome_name = b'w' ∷ b'e' ∷ b'l' ∷ b'c' ∷ b'o' ∷ b'm' ∷ b'e' ∷ b'.' ∷ b't' ∷ b'x' ∷ b't' ∷ 0 ∷ []

-- "Welcome to the OS File System!\n"
abbrev pub welcome_content : List ℕ
welcome_content =
    b'W' ∷ b'e' ∷ b'l' ∷ b'c' ∷ b'o' ∷ b'm' ∷ b'e' ∷ b' ' ∷ b't' ∷ b'o' ∷ b' ' ∷ b't' ∷ b'h' ∷ b'e'
    ∷ b' ' ∷ b'O' ∷ b'S' ∷ b' ' ∷ b'F' ∷ b'i' ∷ b'l' ∷ b'e' ∷ b' ' ∷ b'S' ∷ b'y' ∷ b's' ∷ b't'
    ∷ b'e' ∷ b'm' ∷ b'!' ∷ 10 ∷ 0 ∷ []

unfoldable pub fs_init : FileSystem
fs_init =
    add_file welcome_name welcome_content
      (add_file test_name test_content (fs_create root_name file_type_dir cleared_fs).1)
