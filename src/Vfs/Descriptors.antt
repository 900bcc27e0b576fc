-- ===== src/Vfs/Descriptors.antt =====
-- What the calls do to the table of descriptors.
use minimalist_os.Base.{
  ℕ, ◌^◌, ◌≤◌, ◌<◌, ◌≡◌, ◌⊎◌, refl, ap, ◌∙◌, List, Bool, true, false, not, ℤ, pos, negsuc, failure,
  leb, ◌==◌, if◌then◌else◌, arith, length, length-set, inl, inr, Bool-cases, Option-cases,
}
use minimalist_os.Base.Search.{find_index-Found, find_index-none, get_or-set}
use minimalist_os.CString.{strlen}
use minimalist_os.Vfs.{
  Vfs, Descriptor, no_descriptor, max_open_files, find_free, fs_open, fs_seek, fs_read, fs_close,
  descriptor, is_bad, put_descriptor, to_read, to_int, sample_data,
}

abbrev pub IsValid : Vfs → Type 0
IsValid s = length s.file_descriptors ≡ max_open_files

pub put_descriptor-IsValid :
    (fd : ℕ) (d : Descriptor) (s : Vfs) → IsValid s → IsValid (put_descriptor fd d s)
unfolding put_descriptor
put_descriptor-IsValid fd d s valid = length-set s.file_descriptors fd d ∙ valid

-- A write of one descriptor is seen there only.
pub descriptor-put_descriptor :
    (fd j : ℕ) (d : Descriptor) (s : Vfs)
    → IsValid s
    → fd < max_open_files
    → descriptor (put_descriptor fd d s) j ≡ (if fd == j then d else descriptor s j)
unfolding put_descriptor descriptor
descriptor-put_descriptor fd j d s valid lt =
    get_or-set s.file_descriptors fd j d no_descriptor (omega (arith, valid))

not-false : (b : Bool) → not b ≡ false → b ≡ true
not-false b h = ground arith

-- `fs_open` takes the lowest free descriptor, which then is in use and at the start of the file, and
-- leaves the others; where none is free, it fails and changes nothing.
pub fs_open_lem :
    (path : List ℕ) (flags : ℕ) (s : Vfs)
    → IsValid s
    → let (fd, s') = fs_open path flags s in
      ((n : ℕ) × (fd ≡ pos n)
        × (n < max_open_files)
        × ((descriptor s n).in_use ≡ false)
        × ((j : ℕ) → j < n → (descriptor s j).in_use ≡ true)
        × (s' ≡ put_descriptor n (record { inode = 1; offset = 0; in_use = true }) s))
      ⊎ (fd ≡ failure) × (s' ≡ s) × ((j : ℕ) → j < max_open_files → (descriptor s j).in_use ≡ true)
unfolding fs_open find_free put_descriptor descriptor
fs_open_lem path flags s valid = elim (Option-cases (find_free s)) [
  | inl full ↦
      rw (full, fs_open)
        (inr (
          refl,
          refl,
          λ j lt. not-false (descriptor s j).in_use (
              find_index-none (λ d. not d.in_use) no_descriptor s.file_descriptors 0 max_open_files
                full j (omega arith) lt),
        ))
  | inr (n, free) ↦
      let f =
        find_index-Found (λ d. not d.in_use) no_descriptor s.file_descriptors 0 max_open_files n
          free in
      rw (free, fs_open)
        (inl (
          n,
          refl,
          omega (arith, f.below),
          ground (arith, f.passes),
          λ j lt. not-false (descriptor s j).in_use (f.first j (omega arith) lt),
          refl,
        ))
]

to_read_bound : (count offset : ℕ) → count < 2 ^ 31 → offset < 16 → to_read count offset 16 ≤ 16
unfolding to_read
to_read_bound count offset small inside = ground arith

-- No read of the sample file returns more than its 16 bytes.
pub fs_read-short :
    (fd : ℤ) (buffer : List ℕ) (count : ℕ) (s : Vfs)
    → count < 2 ^ 31
    → ((fs_read fd buffer count s).0 ≡ failure)
      ⊎ ((n : ℕ) × ((fs_read fd buffer count s).0 ≡ pos n) × (n ≤ 16))
unfolding fs_read to_int strlen
fs_read-short (negsuc m) buffer count s small = inl refl
fs_read-short (pos fd) buffer count s small = elim (Bool-cases (is_bad fd s)) [
  | inl bad ↦ rw bad (inl refl)
  | inr good ↦ elim (Bool-cases (leb 16 (descriptor s fd).offset)) [
    | inl at_end ↦ rw good (rw at_end (inr (0, refl, omega arith)))
    | inr more ↦
        let n = to_read_bound count (descriptor s fd).offset small (ground arith) in
        rw good (rw more (inr (to_read count (descriptor s fd).offset 16, ground arith, n)))
  ]
]

-- What a call leaves of the table: its size, and who is in use.
pub record SameUse (s s' : Vfs) : Type 0 where
  pub valid : IsValid s'
  pub use_of : (j : ℕ) → (descriptor s' j).in_use ≡ (descriptor s j).in_use

in_use-if :
    (b : Bool) (d e : Descriptor) → (if b then d else e).in_use ≡ (if b then d.in_use else e.in_use)
in_use-if true d e = refl
in_use-if false d e = refl

pub in_use-put_descriptor :
    (fd j : ℕ) (d : Descriptor) (s : Vfs)
    → IsValid s
    → fd < max_open_files
    → (descriptor (put_descriptor fd d s) j).in_use
      ≡ (if fd == j then d.in_use else (descriptor s j).in_use)
in_use-put_descriptor fd j d s valid lt =
    ap (λ g. g.in_use) (descriptor-put_descriptor fd j d s valid lt)
    ∙ in_use-if (fd == j) d (descriptor s j)

put_descriptor-SameUse :
    (fd : ℕ) (d : Descriptor) (s : Vfs)
    → IsValid s
    → is_bad fd s ≡ false
    → d.in_use ≡ (descriptor s fd).in_use
    → SameUse s (put_descriptor fd d s)
unfolding is_bad
put_descriptor-SameUse fd d s valid good same = record {
  valid = put_descriptor-IsValid fd d s valid;
  use_of = λ j. elim (Bool-cases (fd == j)) [
    | inl e ↦
        let here : fd ≡ j = ground arith in
        in_use-put_descriptor fd j d s valid (ground arith)
        ∙ ground (arith, ap (λ t. (descriptor s t).in_use) here)
    | inr other ↦ ground (arith, in_use-put_descriptor fd j d s valid (ground arith))
  ];
}

SameUse-refl : (s : Vfs) → IsValid s → SameUse s s
SameUse-refl s valid = record { valid = valid; use_of = λ j. refl }

pub fs_seek-SameUse :
    (fd : ℤ) (offset : ℕ) (s : Vfs) → IsValid s → SameUse s (fs_seek fd offset s).1
unfolding fs_seek
fs_seek-SameUse (negsuc n) offset s valid = SameUse-refl s valid
fs_seek-SameUse (pos fd) offset s valid = elim (Bool-cases (is_bad fd s)) [
  | inl bad ↦ rw bad (SameUse-refl s valid)
  | inr good ↦
      rw good
        (put_descriptor-SameUse fd (record (descriptor s fd) { offset = offset }) s valid good refl)
]

pub fs_read-SameUse :
    (fd : ℤ) (buffer : List ℕ) (count : ℕ) (s : Vfs)
    → IsValid s
    → SameUse s (fs_read fd buffer count s).2
unfolding fs_read
fs_read-SameUse (negsuc n) buffer count s valid = SameUse-refl s valid
fs_read-SameUse (pos fd) buffer count s valid = elim (Bool-cases (is_bad fd s)) [
  | inl bad ↦ rw bad (SameUse-refl s valid)
  | inr good ↦ elim (Bool-cases (leb (strlen sample_data) (descriptor s fd).offset)) [
    | inl at_end ↦ rw good (rw at_end (SameUse-refl s valid))
    | inr more ↦ rw good (rw more (put_descriptor-SameUse fd _ s valid good refl))
  ]
]

-- After `fs_close` the descriptor is free, and the others are as they were.
pub fs_close-in_use :
    (fd j : ℕ) (s : Vfs)
    → IsValid s
    → fd < max_open_files
    → (descriptor (fs_close (pos fd) s).1 j).in_use
      ≡ (if fd == j then false else (descriptor s j).in_use)
unfolding fs_close is_bad
fs_close-in_use fd j s valid lt = elim (Bool-cases (is_bad fd s)) [
  | inl bad ↦ elim (Bool-cases (fd == j)) [
    | inl e ↦
        let here : fd ≡ j = ground arith in
        rw bad (ground (arith, ap (λ t. (descriptor s t).in_use) here))
    | inr other ↦ rw bad (ground arith)
  ]
  | inr good ↦
      rw good (in_use-put_descriptor fd j (record (descriptor s fd) { in_use = false }) s valid lt)
]
