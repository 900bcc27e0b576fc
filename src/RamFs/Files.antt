-- ===== src/RamFs/Files.antt =====
-- What a read of a file sees after a write, in `ramfs_read` and `ramfs_write`.
use minimalist_os.Base.{
  ℕ, ◌+◌, ◌-◌, ◌*◌, ◌%◌, ◌^◌, ◌≤◌, ◌<◌, ◌≡◌, ◌≢◌, ◌⊎◌, refl, ap, ◌∙◌, List, ◌++◌, true, some, pos,
  ltb, arith, get_or, set, length, length-set, length-drop, take, drop, inl, inr, Bool-cases,
  get_or-set_self, get_or-set_ne,
}
use native.Mathlib.Decide.{dec_lt}
use native.Mathlib.Nat.{mod-eq_of_lt}
use minimalist_os.Base.Copy.{
  copy_at, slice, slice-copy_at_self, slice-copy_at_below, slice-copy_at_above, length-copy_at,
}
use minimalist_os.CString.{memcpy}
use minimalist_os.CString.Copy.{memcpy_lem}
use minimalist_os.RamFs.{
  RamFs, RamFile, no_file, max_files, max_file_size, bytes_to_read, bytes_to_write, written,
  ramfs_read, ramfs_write,
}

-- The tables have their full size, and the file in slot `i` owns the `i`-th part of the data.
pub record IsValid (fs : RamFs) : Type 0 where
  pub slots : length fs.files ≡ max_files
  pub room : length fs.file_data ≡ max_files * max_file_size
  pub start :
      (i : ℕ)
      → i < max_files
      → (get_or fs.files i no_file).in_use ≡ true
      → (get_or fs.files i no_file).start ≡ i * max_file_size
  pub size :
      (i : ℕ)
      → i < max_files
      → (get_or fs.files i no_file).in_use ≡ true
      → (get_or fs.files i no_file).size ≤ max_file_size

-- The bytes of a range of the file in slot `i`.
unfoldable pub content : RamFs → ℕ → ℕ → ℕ → List ℕ
content fs i offset n = slice fs.file_data ((get_or fs.files i no_file).start + offset) n

bytes_to_read-within :
    (count offset size : ℕ)
    → offset + count ≤ size
    → size ≤ max_file_size
    → bytes_to_read count offset size ≡ count
unfolding bytes_to_read
bytes_to_read-within count offset size fits small =
    ground (arith, mod-eq_of_lt {n = offset + count} {m = 2 ^ 32} (omega arith))

bytes_to_write-within :
    (count offset : ℕ) → offset + count ≤ max_file_size → bytes_to_write count offset ≡ count
unfolding bytes_to_write
bytes_to_write-within count offset fits =
    ground (arith, mod-eq_of_lt {n = offset + count} {m = 2 ^ 32} (omega arith))

-- A read within the file.
read_within :
    (fs : RamFs) (i count offset : ℕ) (buffer : List ℕ)
    → i < max_files
    → (get_or fs.files i no_file).in_use ≡ true
    → offset + count ≤ (get_or fs.files i no_file).size
    → (get_or fs.files i no_file).size ≤ max_file_size
    → 0 < count
    → ramfs_read (i + 1) (some buffer) count offset (some fs) ≡ (
      pos count,
      some (memcpy buffer (drop ((get_or fs.files i no_file).start + offset) fs.file_data) count),
    )
unfolding ramfs_read
read_within fs i count offset buffer lt used fits small pos_count =
    let e : i + 1 - 1 ≡ i = omega arith in
    let n = bytes_to_read-within count offset (get_or fs.files i no_file).size fits small in
    rw e (rw n (ground arith))

-- A write within the slot.
write_within :
    (fs : RamFs) (i count offset : ℕ) (buffer : List ℕ)
    → i < max_files
    → (get_or fs.files i no_file).in_use ≡ true
    → offset + count ≤ max_file_size
    → 0 < count
    → ramfs_write (i + 1) (some buffer) count offset (some fs)
      ≡ (pos count, some (written fs i buffer count offset))
unfolding ramfs_write
write_within fs i count offset buffer lt used fits pos_count =
    let e : i + 1 - 1 ≡ i = omega arith in
    rw e (rw (bytes_to_write-within count offset fits) (ground arith))

-- The files after a write within the slot.
module _ (fs : RamFs) (i count offset : ℕ) (buffer : List ℕ) (valid : IsValid fs)
    (lt : i < max_files) (fits : offset + count ≤ max_file_size) where
  unfoldable pub after : RamFs
  after = written fs i buffer count offset

  -- The slot that is written keeps all but its size.
  files-cases :
      ((get_or fs.files i no_file).size < offset + count)
        × (after.files
            ≡ set fs.files i (record (get_or fs.files i no_file) { size = offset + count }))
      ⊎ (offset + count ≤ (get_or fs.files i no_file).size) × (after.files ≡ fs.files)
  unfolding after written
  files-cases =
      let m : (offset + count) % 2 ^ 32 ≡ offset + count =
        mod-eq_of_lt {n = offset + count} {m = 2 ^ 32} (omega arith) in
      rw m (elim (Bool-cases (ltb (get_or fs.files i no_file).size (offset + count))) [
        | inl more ↦ inl (ground arith, rw more refl)
        | inr enough ↦ inr (ground arith, rw enough refl)
      ])

  after_self :
      ((get_or after.files i no_file).in_use ≡ (get_or fs.files i no_file).in_use)
      × ((get_or after.files i no_file).start ≡ (get_or fs.files i no_file).start)
      × (offset + count ≤ (get_or after.files i no_file).size)
      × ((get_or after.files i no_file).size ≡ offset + count
          ⊎ (get_or after.files i no_file).size ≡ (get_or fs.files i no_file).size)
  after_self = elim files-cases [
    | inl (more, e) ↦
        let f = get_or fs.files i no_file in
        let new : RamFile = record f { size = offset + count } in
        let q : get_or after.files i no_file ≡ new =
          ap (λ l. get_or l i no_file) e
          ∙ get_or-set_self fs.files i new no_file (omega (arith, valid.slots)) in
        (
          ap (λ g. g.in_use) q,
          ap (λ g. g.start) q,
          omega (arith, ap (λ g. g.size) q),
          inl (ap (λ g. g.size) q),
        )
    | inr (enough, e) ↦
        let q : get_or after.files i no_file ≡ get_or fs.files i no_file =
          ap (λ l. get_or l i no_file) e in
        (
          ap (λ g. g.in_use) q,
          ap (λ g. g.start) q,
          omega (arith, ap (λ g. g.size) q),
          inr (ap (λ g. g.size) q),
        )
  ]

  pub after_other : (j : ℕ) → i ≢ j → get_or after.files j no_file ≡ get_or fs.files j no_file
  after_other j ne = elim files-cases [
    | inl (more, e) ↦ ap (λ l. get_or l j no_file) e ∙ get_or-set_ne fs.files i j _ no_file ne
    | inr (enough, e) ↦ ap (λ l. get_or l j no_file) e
  ]

  after_data :
      after.file_data
      ≡ copy_at fs.file_data ((get_or fs.files i no_file).start + offset) buffer count
  unfolding after written
  after_data = refl

  -- A write within the slot of a file keeps the table valid.
  after_slots : length after.files ≡ max_files
  after_slots = elim files-cases [
    | inl (more, e) ↦ ap length e ∙ length-set fs.files i _ ∙ valid.slots
    | inr (enough, e) ↦ ap length e ∙ valid.slots
  ]

  length-after_data : length after.file_data ≡ max_files * max_file_size
  length-after_data = ap length after_data ∙ length-copy_at fs.file_data _ buffer count ∙ valid.room

  module _ (used : (get_or fs.files i no_file).in_use ≡ true) where
    size_fits : (get_or after.files i no_file).size ≤ max_file_size
    size_fits = elim after_self.3 [
      | inl grown ↦ omega arith
      | inr kept ↦ omega (arith, valid.size i lt used)
    ]

    content-after : count ≤ length buffer → content after i offset count ≡ take count buffer
    unfolding content after written
    content-after enough =
        let k = (get_or fs.files i no_file).start + offset in
        ap (λ t. slice after.file_data (t + offset) count) after_self.1
        ∙ slice-copy_at_self fs.file_data k buffer count
            (omega (arith, valid.room, valid.start i lt used)) enough

    pub content-other :
        (j from n : ℕ)
        → j < max_files
        → i ≢ j
        → (get_or fs.files j no_file).in_use ≡ true
        → from + n ≤ (get_or fs.files j no_file).size
        → content after j from n ≡ content fs j from n
    unfolding content after written
    content-other j from n lt' ne used' within =
        let k = (get_or fs.files i no_file).start + offset in
        let k' = (get_or fs.files j no_file).start + from in
        let mine = valid.start i lt used in
        let yours = valid.start j lt' used' in
        let small = valid.size j lt' used' in
        ap (λ g. slice after.file_data (g.start + from) n) (after_other j ne) ∙ elim (dec_lt i j) [
          | yes p ↦
              slice-copy_at_above fs.file_data k buffer count k' n (omega (arith, mine, yours))
          | no p ↦
              slice-copy_at_below fs.file_data k buffer count k' n
                (omega (arith, mine, yours, small))
        ]

-- A read within a file returns its content.
read_content :
    (fs : RamFs) (i count offset : ℕ) (out : List ℕ)
    → i < max_files
    → (get_or fs.files i no_file).in_use ≡ true
    → offset + count ≤ (get_or fs.files i no_file).size
    → (get_or fs.files i no_file).size ≤ max_file_size
    → 0 < count
    → count ≤ length out
    → (get_or fs.files i no_file).start + offset + count ≤ length fs.file_data
    → ramfs_read (i + 1) (some out) count offset (some fs)
      ≡ (pos count, some (content fs i offset count ++ drop count out))
unfolding content
read_content fs i count offset out lt used fits small pos_count room inside =
    let k = (get_or fs.files i no_file).start + offset in
    read_within fs i count offset out lt used fits small pos_count
    ∙ ap (λ l. (pos count, some l))
        (memcpy_lem out (drop k fs.file_data) count room
          (omega (arith, length-drop k fs.file_data)))

-- Writing at most to the end of a slot stores the bytes: a read of the same range returns them.
pub ramfs_read-ramfs_write :
    (fs : RamFs) (i count offset : ℕ) (buffer out : List ℕ)
    → IsValid fs
    → i < max_files
    → (get_or fs.files i no_file).in_use ≡ true
    → offset + count ≤ max_file_size
    → 0 < count
    → count ≤ length buffer
    → count ≤ length out
    → let (status, fs') = ramfs_write (i + 1) (some buffer) count offset (some fs) in
      (status ≡ pos count)
      × (ramfs_read (i + 1) (some out) count offset fs'
          ≡ (pos count, some (take count buffer ++ drop count out)))
unfolding after
ramfs_read-ramfs_write fs i count offset buffer out valid lt used fits pos_count enough room =
    let fs' = after fs i count offset buffer valid lt fits in
    let (in_use, start, covered, size) = after_self fs i count offset buffer valid lt fits in
    let total = length-after_data fs i count offset buffer valid lt fits in
    let st = valid.start i lt used in
    rw (write_within fs i count offset buffer lt used fits pos_count) (
      refl,
      read_content fs' i count offset out lt (in_use ∙ used) covered
            (size_fits fs i count offset buffer valid lt fits used) pos_count room
            (omega (arith, start, st, total))
          ∙ ap (λ l. (pos count, some (l ++ drop count out)))
              (content-after fs i count offset buffer valid lt fits used enough),
    )
