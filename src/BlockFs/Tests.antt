-- ===== src/BlockFs/Tests.antt =====
-- A small file system with one file.
use minimalist_os.Base.{
  ℕ, zero, suc, ◌+◌, ◌≡◌, refl, ap, List, [], ◌∷◌, ◌++◌, none, some, pos, get_or, set, length, take,
  replicate, length-replicate, arith,
}
use minimalist_os.Base.Bitmap.{first_free, mark_used}
use minimalist_os.Base.Bits.{test_bit, set_bit}
use minimalist_os.Base.Search.{find_index}
use minimalist_os.BlockFs.Blocks.{alloc_block-first_free}
use minimalist_os.BlockFs.Calls.{IsValid}
use minimalist_os.BlockFs.Content.{content, fs_write-fs_read}
use minimalist_os.BlockFs.Delete.{
  Op, create_file, open_file, write_file, delete_file, calls_after, step, Inside, AllFit, done,
  created, opened, wrote, deleted, calls_after-IsValid,
}
use minimalist_os.BlockFs.{
  FileSystem, fs_create, fs_open, new_entry, free_word, free_bit, is_file, no_entry, entry,
  alloc_block, blocks_of, alloc_blocks, find_file, fs_write, fs_read, fs_delete,
}
use minimalist_os.CString.{text, strcmp, store_name}
use minimalist_os.Vfs.{to_int}

abbrev empty_fs : FileSystem
empty_fs = record {
  bytes = replicate 4096 0;
  bitmap = set (replicate 64 0) 0 0x0F;
  files = replicate 64 no_entry;
  file_count = 0;
  next_block = 0;
}

blank-get : (n i : ℕ) → get_or (replicate n no_entry) i no_entry ≡ no_entry
blank-get zero i = refl
blank-get (suc n) zero = refl
blank-get (suc n) (suc i) = blank-get n i

empty_fs-IsValid : IsValid empty_fs
unfolding no_entry
empty_fs-IsValid = record {
  table = refl;
  used = omega arith;
  fields = λ i. ap (λ e. length e.filename) (blank-get 64 i);
  different = λ i j lt in_use. absurd (omega arith);
}

-- "a" and "b".
abbrev name_a : List ℕ
name_a = b'a' ∷ 0 ∷ []

abbrev name_b : List ℕ
name_b = b'b' ∷ 0 ∷ []

abbrev three_bytes : List ℕ
three_bytes = b'x' ∷ b'y' ∷ b'z' ∷ []

abbrev calls : List Op
calls =
    create_file name_a 1
    ∷ open_file name_b 8
    ∷ write_file 1 three_bytes 3
    ∷ delete_file name_a
    ∷ create_file name_a 2
    ∷ []

-- The state that the write meets.
abbrev two_files : FileSystem
two_files = step (open_file name_b 8) (step (create_file name_a 1) empty_fs)

second_file : ((entry two_files 1).start_block ≡ 5) × ((entry two_files 1).size ≡ 0)
unfolding step fs_create fs_open alloc_block free_word find_file entry new_entry no_entry find_index
    free_bit test_bit is_file strcmp store_name set_bit
second_file = (refl, refl)

same_data : two_files.bytes ≡ replicate 4096 0
unfolding step fs_create fs_open alloc_block free_word find_file entry new_entry no_entry find_index
    free_bit test_bit is_file strcmp store_name set_bit
same_data = refl

write-Inside : Inside 1 three_bytes 3 two_files
write-Inside = record {
  in_data =
      omega (arith, second_file.0, second_file.1, ap length same_data, length-replicate 4096 zero);
  in_buffer = omega arith;
}

calls-AllFit : AllFit calls empty_fs
unfolding text
calls-AllFit =
    created (omega arith)
      (opened (omega arith) (wrote write-Inside (deleted (created (omega arith) done))))

calls_after-IsValid_example :
    let s' = calls_after calls empty_fs in
    IsValid s' × ((name : List ℕ) → find_file name (fs_delete name s').1 ≡ none)
calls_after-IsValid_example = calls_after-IsValid calls empty_fs empty_fs-IsValid calls-AllFit

alloc_block-first_free_example : alloc_block empty_fs ≡ elim (first_free empty_fs.bitmap 0 2048) [
  | none ↦ (0, empty_fs)
  | some k ↦ (k, record empty_fs { bitmap = mark_used empty_fs.bitmap k })
]
alloc_block-first_free_example = alloc_block-first_free empty_fs

-- One file of two bytes in block 4.
abbrev one_file : FileSystem
one_file = record empty_fs {
  files = set (replicate 64 no_entry) 0 (record {
    filename = name_a;
    size = 2;
    start_block = 4;
    type = 1;
    flags = 0;
    creation_time = 0;
    modify_time = 0;
  });
  file_count = 1;
}

written : (fs_write 0 three_bytes 3 one_file).0 ≡ pos 3
unfolding fs_write entry no_entry blocks_of alloc_blocks to_int
written = refl

fs_write-fs_read_example :
    let (status, s') = fs_write 0 three_bytes 3 one_file in
    let (status', out') = fs_read 0 (replicate 8 0) 8 s' in
    (status ≡ pos 3)
    × (status' ≡ pos ((entry one_file 0).size + 3))
    × (take ((entry one_file 0).size + 3) out' ≡ content one_file 0 ++ take 3 three_bytes)
unfolding entry
fs_write-fs_read_example =
    fs_write-fs_read one_file 0 three_bytes (replicate 8 0) 3 8 (omega arith) (omega arith)
      (omega arith) (omega arith) (omega arith) (omega arith) (omega arith)
      (λ e. absurd (cc (e, written)))
