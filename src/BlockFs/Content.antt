-- ===== src/BlockFs/Content.antt =====
-- What a file holds: writes add to its end, and reads start at its first byte.
use minimalist_os.Base.{
  ℕ, zero, suc, ◌+◌, ◌-◌, ◌*◌, ◌/◌, ◌%◌, ◌^◌, ◌≤◌, ◌<◌, ◌≡◌, ◌≢◌, refl, sym, ap, ◌∙◌, List, ◌++◌,
  true, false, inl, inr, pos, failure, ltb, leb, ◌==◌, if◌then◌else◌, get_or, get_or-set_self,
  length, length-drop, take, drop, arith, Bool-cases, Option-cases,
}
use minimalist_os.Base.Copy.{
  copy_at, slice, slice-copy_at_self, slice-copy_at_below, slice-split, length-copy_at,
}
use minimalist_os.BlockFs.Calls.{alloc_blocks-SameFiles}
use minimalist_os.BlockFs.{
  FileSystem, no_entry, entry, blocks_of, free_word, alloc_block, alloc_blocks, append_bytes,
  fs_write, fs_read,
}
use minimalist_os.CString.Copy.{take-memcpy}
use minimalist_os.Vfs.{to_int}

-- The bytes of a file.
unfoldable pub content : FileSystem → ℕ → List ℕ
content s fd = slice s.bytes ((entry s fd).start_block * 512) (entry s fd).size

entry-ext : (s t : FileSystem) (fd : ℕ) → s.files ≡ t.files → entry s fd ≡ entry t fd
unfolding entry
entry-ext s t fd e = ap (λ fs. get_or fs fd no_entry) e

content-ext :
    (s t : FileSystem) (fd : ℕ)
    → s.files ≡ t.files
    → s.bytes ≡ t.bytes
    → content s fd ≡ content t fd
unfolding content
content-ext s t fd e b =
    ap (λ f. slice s.bytes (f.start_block * 512) f.size) (entry-ext s t fd e)
    ∙ ap (λ xs. slice xs ((entry t fd).start_block * 512) (entry t fd).size) b

append_bytes-length :
    (s : FileSystem) (fd : ℕ) (buffer : List ℕ) (count : ℕ)
    → length (append_bytes fd buffer count s).bytes ≡ length s.bytes
unfolding append_bytes
append_bytes-length s fd buffer count = length-copy_at s.bytes _ buffer count

append_bytes-count :
    (s : FileSystem) (fd : ℕ) (buffer : List ℕ) (count : ℕ)
    → (append_bytes fd buffer count s).file_count ≡ s.file_count
unfolding append_bytes
append_bytes-count s fd buffer count = refl

alloc_blocks-bytes : (n : ℕ) (s : FileSystem) → (alloc_blocks n s).1.bytes ≡ s.bytes
unfolding alloc_blocks alloc_block
alloc_blocks-bytes zero s = refl
alloc_blocks-bytes (suc n) s =
    let (block, s') = alloc_block s in
    let first : s'.bytes ≡ s.bytes = elim (Option-cases (free_word s.bitmap 0 64)) [
      | inl full ↦ rw (full, alloc_block) refl
      | inr (place, found) ↦ rw (found, alloc_block) refl
    ] in
    elim (Bool-cases (block == 0)) [
      | inl full ↦ rw (full, alloc_blocks) first
      | inr more ↦ rw (more, alloc_blocks) (alloc_blocks-bytes n s' ∙ first)
    ]

module _ (s : FileSystem) (fd : ℕ) (buffer : List ℕ) (count : ℕ) (inside : fd < length s.files)
    (room : (entry s fd).start_block * 512 + (entry s fd).size + count ≤ length s.bytes)
    (given : count ≤ length buffer) (small : (entry s fd).size + count < 2 ^ 31) where
  -- The bytes are put behind those of the file, whose size grows.
  append_bytes-content :
      content (append_bytes fd buffer count s) fd ≡ content s fd ++ take count buffer
  unfolding append_bytes content entry
  append_bytes-content =
      let f = get_or s.files fd no_entry in
      let start = f.start_block * 512 in
      let grown = record f { size = (f.size + count) % 2 ^ 32; modify_time = 0 } in
      let bytes = copy_at s.bytes (start + f.size) buffer count in
      ap (λ e. slice bytes (e.start_block * 512) e.size)
        (get_or-set_self s.files fd grown no_entry inside)
      ∙ ap (λ n. slice bytes start n) {x = (f.size + count) % 2 ^ 32} {y = f.size + count}
          (omega arith)
      ∙ slice-split bytes start f.size count
      ∙ ap (λ xs. xs ++ slice bytes (start + f.size) count)
          (slice-copy_at_below s.bytes (start + f.size) buffer count start f.size (omega arith))
      ∙ ap (λ xs. slice s.bytes start f.size ++ xs)
          (slice-copy_at_self s.bytes (start + f.size) buffer count room given)

  -- The entry of the file after that.
  append_bytes-entry :
      let f' = entry (append_bytes fd buffer count s) fd in
      (f'.size ≡ (entry s fd).size + count) × (f'.start_block ≡ (entry s fd).start_block)
  unfolding append_bytes entry
  append_bytes-entry =
      let f = get_or s.files fd no_entry in
      let grown = record f { size = (f.size + count) % 2 ^ 32; modify_time = 0 } in
      let there = get_or-set_self s.files fd grown no_entry inside in
      (
        ap (λ e. e.size) there
            ∙ (let fits : (f.size + count) % 2 ^ 32 ≡ f.size + count = omega arith in fits),
        ap (λ e. e.start_block) there,
      )

to_int-small : (n : ℕ) → n < 2 ^ 31 → to_int n ≡ pos n
unfolding to_int
to_int-small n h = let low : ltb n (2 ^ 31) ≡ true = ground arith in rw low refl

-- A read with enough room gives the number of the bytes of the file, and puts them into the buffer.
fs_read-content :
    (s : FileSystem) (fd : ℕ) (out : List ℕ) (n : ℕ)
    → let f = entry s fd in
      fd < s.file_count
      → f.size ≤ n
      → f.size ≤ length out
      → f.start_block * 512 + f.size ≤ length s.bytes
      → f.size < 2 ^ 31
      → let (status, out') = fs_read fd out n s in
        (status ≡ pos f.size) × (take f.size out' ≡ content s fd)
unfolding fs_read content
fs_read-content s fd out n open_fd enough room held small =
    let f = entry s fd in
    let all : (if ltb f.size n then f.size else n) ≡ f.size = ground arith in
    let valid : leb s.file_count fd ≡ false = ground arith in
    rw (all, valid)
      (
        to_int-small f.size small,
        take-memcpy out (drop (f.start_block * 512) s.bytes) f.size room
            (omega (arith, length-drop (f.start_block * 512) s.bytes)),
      )

-- A write that succeeds, to a file whose bytes and the new ones lie inside the file system's data,
-- gives the count of its bytes, and a read of the whole file then gives what the file held before and
-- the new bytes behind it.
pub fs_write-fs_read :
    (s : FileSystem) (fd : ℕ) (buffer out : List ℕ) (count n : ℕ)
    → let f = entry s fd in
      fd < s.file_count
      → s.file_count ≤ length s.files
      → f.start_block * 512 + f.size + count ≤ length s.bytes
      → count ≤ length buffer
      → f.size + count < 2 ^ 31
      → f.size + count ≤ n
      → f.size + count ≤ length out
      → let (status, s') = fs_write fd buffer count s in
        status ≢ failure
        → let (status', out') = fs_read fd out n s' in
          (status ≡ pos count)
          × (status' ≡ pos (f.size + count))
          × (take (f.size + count) out' ≡ content s fd ++ take count buffer)
unfolding fs_write
fs_write-fs_read s fd buffer out count n open_fd table room given small enough space ok =
    let f = entry s fd in
    let more = (f.size + count + 512 - 1) % 2 ^ 32 / 512 - blocks_of f.size in
    let (found, s') = alloc_blocks more s in
    let same = alloc_blocks-SameFiles more s in
    let bytes = alloc_blocks-bytes more s in
    let same_entry = entry-ext s' s fd same.files in
    let size = ap (λ e. e.size) same_entry in
    let start = ap (λ e. e.start_block) same_entry in
    let inside : fd < length s'.files = omega (arith, ap length same.files) in
    let room' : (entry s' fd).start_block * 512 + (entry s' fd).size + count ≤ length s'.bytes =
      omega (arith, ap length bytes, size, start) in
    let small' : (entry s' fd).size + count < 2 ^ 31 = omega (arith, size) in
    let t = append_bytes fd buffer count s' in
    let (size', start') = append_bytes-entry s' fd buffer count inside room' given small' in
    let valid : leb s.file_count fd ≡ false = ground arith in
    elim (Bool-cases found) [
      | inr none_left ↦ absurd (ok (rw (valid, none_left, fs_write) refl))
      | inl blocks ↦
          let long : length t.bytes ≡ length s'.bytes = append_bytes-length s' fd buffer count in
          let counted : t.file_count ≡ s.file_count =
            append_bytes-count s' fd buffer count ∙ same.count in
          let (status, held) =
            fs_read-content t fd out n (omega (arith, counted)) (omega (arith, size, size'))
              (omega (arith, size, size'))
              (omega (arith, size, size', start, start', long, ap length bytes))
              (omega (arith, size, size')) in
          let total : (entry t fd).size ≡ f.size + count = size' ∙ ap (λ k. k + count) size in
          rw (valid, blocks, fs_write)
            (
              to_int-small count (omega arith),
              status ∙ ap pos total,
              ap (λ k. take k (fs_read fd out n t).1) (sym total)
                  ∙ held
                  ∙ append_bytes-content s' fd buffer count inside room' given small'
                  ∙ ap (λ xs. xs ++ take count buffer) (content-ext s' s fd same.files bytes),
            )
    ]
