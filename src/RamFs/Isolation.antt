-- ===== src/RamFs/Isolation.antt =====
-- What a write to one file does to the reads of another.
use minimalist_os.Base.{
  ℕ, ◌+◌, ◌-◌, ◌^◌, ◌≤◌, ◌<◌, ◌≡◌, ◌≢◌, ◌⊎◌, refl, sym, ap, ◌∙◌, List, [], ◌∷◌, zero, suc, true,
  false, not, ◌||◌, ◌==◌, leb, if◌then◌else◌, Option, some, ℤ, failure, pos, ltb, arith, get_or,
  take, drop, inl, inr, Bool-cases,
}
use native.Mathlib.Nat.{mod-eq_of_lt}
use minimalist_os.Base.Copy.{slice}
use minimalist_os.CString.{memcpy}
use minimalist_os.RamFs.{
  RamFs, RamFile, no_file, max_files, max_file_size, bytes_to_read, bytes_to_write, written,
  ramfs_read, ramfs_write,
}
use minimalist_os.RamFs.Files.{IsValid, content, after, after_other, content-other}

clamped :
    (count offset : ℕ)
    → offset + count < 2 ^ 32
    → offset < max_file_size
    → offset + bytes_to_write count offset ≤ max_file_size
unfolding bytes_to_write
clamped count offset no_wrap small =
    ground (arith, mod-eq_of_lt {n = offset + count} {m = 2 ^ 32} no_wrap)

-- A write whose offset and count do not wrap around is cut to the slot, or does nothing.
write-cases :
    (fs : RamFs) (i count offset : ℕ) (buffer : List ℕ)
    → i < max_files
    → offset + count < 2 ^ 32
    → ((n : ℕ) × (offset + n ≤ max_file_size)
        × ((get_or fs.files i no_file).in_use ≡ true)
        × ((ramfs_write (i + 1) (some buffer) count offset (some fs)).1
            ≡ some (written fs i buffer n offset)))
      ⊎ (ramfs_write (i + 1) (some buffer) count offset (some fs)).1 ≡ some fs
unfolding ramfs_write
write-cases fs i count offset buffer lt no_wrap =
    let e : i + 1 - 1 ≡ i = omega arith in
    let in_table : (i + 1 == 0 || ltb max_files (i + 1)) ≡ false = ground arith in
    rw (e, in_table)
      (elim (Bool-cases (get_or fs.files i no_file).in_use) [
        | inr free ↦ rw free (inr refl)
        | inl used ↦ elim (Bool-cases (leb max_file_size offset)) [
          | inl behind ↦ rw (used, behind) (inr refl)
          | inr within ↦
              rw (used, within)
                (inl (
                  bytes_to_write count offset,
                  clamped count offset no_wrap (ground arith),
                  refl,
                  refl,
                ))
        ]
      ])

-- A read of a file with this entry, from this data.
unfoldable read_from : RamFile → List ℕ → List ℕ → ℕ → ℕ → ℤ × Option (List ℕ)
read_from f file_data out n from =
    let m = bytes_to_read n from f.size in
    if not f.in_use
    then (failure, some out)
    else if leb f.size from
    then (pos 0, some out)
    else (pos m, some (memcpy out (drop (f.start + from) file_data) m))

ramfs_read-read_from :
    (fs : RamFs) (j n from : ℕ) (out : List ℕ)
    → j < max_files
    → ramfs_read (j + 1) (some out) n from (some fs)
      ≡ read_from (get_or fs.files j no_file) fs.file_data out n from
unfolding ramfs_read read_from
ramfs_read-read_from fs j n from out lt =
    let e : j + 1 - 1 ≡ j = omega arith in
    let in_table : (j + 1 == 0 || ltb max_files (j + 1)) ≡ false = ground arith in
    rw (e, in_table) refl

-- `memcpy` looks at no more than it copies.
memcpy-take : (out src : List ℕ) (n : ℕ) → memcpy out (take n src) n ≡ memcpy out src n
unfolding memcpy
memcpy-take out src zero = refl
memcpy-take [] src (suc n) = refl
memcpy-take (x ∷ out) [] (suc n) = refl
memcpy-take (x ∷ out) (c ∷ src) (suc n) = ap (λ ys. c ∷ ys) (memcpy-take out src n)

bytes_to_read-inside :
    (n from size : ℕ) → from + n < 2 ^ 32 → from < size → from + bytes_to_read n from size ≤ size
unfolding bytes_to_read
bytes_to_read-inside n from size no_wrap small =
    ground (arith, mod-eq_of_lt {n = from + n} {m = 2 ^ 32} no_wrap)

-- Two data areas that agree on the file give the same reads.
read_from-ext :
    (f : RamFile) (file_data file_data' out : List ℕ) (n from : ℕ)
    → from + n < 2 ^ 32
    → (f.in_use ≡ true
        → (m : ℕ) → from + m ≤ f.size
        → slice file_data' (f.start + from) m ≡ slice file_data (f.start + from) m)
    → read_from f file_data' out n from ≡ read_from f file_data out n from
unfolding read_from
read_from-ext f file_data file_data' out n from no_wrap same = elim (Bool-cases f.in_use) [
  | inr free ↦ rw free refl
  | inl used ↦ elim (Bool-cases (leb f.size from)) [
    | inl behind ↦ rw (used, behind) refl
    | inr within ↦
        let m = bytes_to_read n from f.size in
        let inside = bytes_to_read-inside n from f.size no_wrap (ground arith) in
        rw (used, within)
          (ap (λ l. (pos m, some l))
            (sym (memcpy-take out (drop (f.start + from) file_data') m)
              ∙ ap (λ xs. memcpy out xs m) (same used m inside)
              ∙ memcpy-take out (drop (f.start + from) file_data) m))
  ]
]

-- A write to one file, cut to its slot where it is too long, leaves every read of another file as it
-- was, where no offset and count have a sum that leaves 32 bits.
pub ramfs_read-ramfs_write_other :
    (fs : RamFs) (i j count offset n from : ℕ) (buffer out : List ℕ)
    → IsValid fs
    → i < max_files
    → j < max_files
    → i ≢ j
    → offset + count < 2 ^ 32
    → from + n < 2 ^ 32
    → let fs' = (ramfs_write (i + 1) (some buffer) count offset (some fs)).1 in
      ramfs_read (j + 1) (some out) n from fs' ≡ ramfs_read (j + 1) (some out) n from (some fs)
unfolding after content
ramfs_read-ramfs_write_other fs i j count offset n from buffer out valid lt lt' ne no_wrap
      no_wrap' =
    elim (write-cases fs i count offset buffer lt no_wrap) [
      | inr nothing ↦ ap (ramfs_read (j + 1) (some out) n from) nothing
      | inl (k, fits, used, e) ↦
          let fs' = after fs i k offset buffer valid lt fits in
          let same = after_other fs i k offset buffer valid lt fits j ne in
          let f = get_or fs.files j no_file in
          ap (ramfs_read (j + 1) (some out) n from) e
          ∙ ramfs_read-read_from fs' j n from out lt'
          ∙ ap (λ g. read_from g fs'.file_data out n from) same
          ∙ read_from-ext f fs.file_data fs'.file_data out n from no_wrap' (λ used' m inside.
            sym (ap (λ g. slice fs'.file_data (g.start + from) m) same)
            ∙ content-other fs i k offset buffer valid lt fits used j from m lt' ne used' inside)
          ∙ sym (ramfs_read-read_from fs j n from out lt')
    ]
