-- ===== src/BlockFs/Calls.antt =====
-- Creating, opening and writing files, and their names.
use Prim.Native.Nat.{bit_and}
use mathlib.Core.Path.{subst}
use minimalist_os.Base.{
  ℕ, zero, suc, ◌+◌, ◌-◌, ◌/◌, ◌%◌, ◌^◌, ◌<◌, ◌≡◌, refl, sym, ◌∙◌, List, inl, inr, leb, ◌==◌,
  get_or, set, length, take_self, arith, Bool-cases, Option-cases,
}
use minimalist_os.BlockFs.Names.{Distinct, find_file-none, Distinct-append, Distinct-set}
use minimalist_os.BlockFs.{
  FileSystem, no_entry, entry, free_word, alloc_block, find_file, new_entry, fs_create, blocks_of,
  fs_open, alloc_blocks, append_bytes, fs_write,
}
use minimalist_os.CString.Copy.{text-store_name, length-store_name}
use minimalist_os.CString.{text}

abbrev pub IsValid : FileSystem → Type 0
IsValid s = Distinct s.files s.file_count

-- Two states with the same table of files.
pub record SameFiles (s s' : FileSystem) : Type 0 where
  pub files : s'.files ≡ s.files
  pub count : s'.file_count ≡ s.file_count

alloc_block-SameFiles : (s : FileSystem) → SameFiles s (alloc_block s).1
unfolding alloc_block
alloc_block-SameFiles s = elim (Option-cases (free_word s.bitmap 0 64)) [
  | inl full ↦ rw (full, alloc_block) (record { files = refl; count = refl })
  | inr (place, found) ↦ rw (found, alloc_block) (record { files = refl; count = refl })
]

pub alloc_blocks-SameFiles : (n : ℕ) (s : FileSystem) → SameFiles s (alloc_blocks n s).1
unfolding alloc_blocks
alloc_blocks-SameFiles zero s = record { files = refl; count = refl }
alloc_blocks-SameFiles (suc n) s =
    let (block, s') = alloc_block s in
    let first = alloc_block-SameFiles s in
    elim (Bool-cases (block == 0)) [
      | inl full ↦ rw (full, alloc_blocks) first
      | inr more ↦
          let rest = alloc_blocks-SameFiles n s' in
          rw (more, alloc_blocks)
            (record { files = rest.files ∙ first.files; count = rest.count ∙ first.count })
    ]

module _ (s : FileSystem) (valid : IsValid s) where
  -- What creation writes behind the last entry keeps the names different, whether or not it counts.
  module _ (name : List ℕ) (type : ℕ) (short : length (text name) < 256) where
    pub fs_create-IsValid : IsValid (fs_create name type s).1
    unfolding fs_create entry new_entry
    fs_create-IsValid =
        let (block, s') = alloc_block s in
        let same = alloc_block-SameFiles s in
        let old = get_or s.files s.file_count no_entry in
        let e = new_entry old name type block in
        elim (Bool-cases (leb 64 s.file_count)) [
          | inl full ↦ rw (full, fs_create) valid
          | inr room ↦ elim (Option-cases (find_file name s)) [
            | inr (i, found) ↦ rw (room, found, fs_create) valid
            | inl fresh ↦
                let wide : length e.filename ≡ 256 =
                  length-store_name 256 old.filename name ∙ valid.fields s.file_count in
                let stored : text e.filename ≡ text name =
                  text-store_name 256 old.filename name (omega arith)
                    (omega (arith, valid.fields s.file_count))
                  ∙ take_self 255 (text name) (omega arith) in
                elim (Bool-cases (block == 0)) [
                  | inl empty ↦
                      rw (room, fresh, empty, fs_create)
                        (subst (λ n. Distinct (set s'.files s.file_count e) n) (sym same.count)
                          (subst (λ fs. Distinct (set fs s.file_count e) s.file_count)
                            (sym same.files)
                            (Distinct-set s.files s.file_count valid s.file_count e (ground arith)
                              wide (λ lt. absurd (omega arith)))))
                  | inr got ↦
                      rw (room, fresh, got, fs_create)
                        (subst (λ fs. Distinct (set fs s.file_count e) (s.file_count + 1))
                          (sym same.files)
                          (Distinct-append s.files s.file_count valid s.file_count e (ground arith)
                            wide refl (λ i lt f. find_file-none name s fresh i lt (f ∙ stored))))
                ]
          ]
        ]

  pub fs_open-IsValid :
      (name : List ℕ) (mode : ℕ) → length (text name) < 256 → IsValid (fs_open name mode s).1
  unfolding fs_open
  fs_open-IsValid name mode short = elim (Option-cases (find_file name s)) [
    | inr (i, found) ↦ rw (found, fs_open) valid
    | inl missing ↦ elim (Bool-cases (bit_and mode 8 == 0)) [
      | inl asked ↦ rw (missing, asked, fs_open) valid
      | inr create ↦ rw (missing, create, fs_open) (fs_create-IsValid name 1 short)
    ]
  ]

  pub fs_write-IsValid :
      (fd : ℕ) (buffer : List ℕ) (count : ℕ) → IsValid (fs_write fd buffer count s).1
  unfolding fs_write append_bytes entry
  fs_write-IsValid fd buffer count =
      let f = get_or s.files fd no_entry in
      let more = (f.size + count + 512 - 1) % 2 ^ 32 / 512 - blocks_of f.size in
      let (enough, s') = alloc_blocks more s in
      let same = alloc_blocks-SameFiles more s in
      let kept : Distinct s'.files s'.file_count =
        subst (λ n. Distinct s'.files n) (sym same.count)
          (subst (λ fs. Distinct fs s.file_count) (sym same.files) valid) in
      let g = record (get_or s'.files fd no_entry) {
        size = ((get_or s'.files fd no_entry).size + count) % 2 ^ 32;
        modify_time = 0;
      } in
      elim (Bool-cases (leb s.file_count fd)) [
        | inl bad ↦ rw (bad, fs_write) valid
        | inr good ↦ elim (Bool-cases enough) [
          | inr full ↦ rw (good, full, fs_write) kept
          | inl room ↦
              rw (good, room, fs_write)
                (Distinct-set s'.files s'.file_count kept fd g (ground (arith, valid.used))
                  (kept.fields fd) (λ lt. refl))
        ]
      ]
