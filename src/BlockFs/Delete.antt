-- ===== src/BlockFs/Delete.antt =====
-- Deleting a file, and any sequence of calls.
use minimalist_os.Base.{
  ℕ, ◌+◌, ◌-◌, ◌*◌, ◌≤◌, ◌<◌, ◌≡◌, ◌≢◌, refl, sym, ap, ◌∙◌, List, [], ◌∷◌, true, ◌&&◌, inl, inr,
  none, leb, ltb, if◌then◌else◌, get_or, length, arith, Bool-cases, Option-cases,
}
use minimalist_os.Base.Search.{find_index-none_of}
use minimalist_os.BlockFs.Names.{
  Distinct, name_at, shift_entries-get, length-shift_entries, find_file-place, is_file-other,
}
use minimalist_os.BlockFs.{
  FileEntry, FileSystem, no_entry, find_file, fs_create, shift_entries, fs_delete, fs_open,
  fs_write, is_file, entry, block_size,
}
use minimalist_os.CString.{text}
use minimalist_os.BlockFs.Calls.{IsValid, fs_create-IsValid, fs_open-IsValid, fs_write-IsValid}

-- The table without its entry `i`.
module _ (s : FileSystem) (valid : IsValid s) (i : ℕ) (lt : i < s.file_count) where
  abbrev shifted : List FileEntry
  shifted = shift_entries (s.file_count - 1 - i) i s.files

  -- Where an entry in use comes from.
  abbrev from : ℕ → ℕ
  from j = if leb i j then j + 1 else j

  shifted-get :
      (j : ℕ) → j < s.file_count - 1 → get_or shifted j no_entry ≡ get_or s.files (from j) no_entry
  shifted-get j small =
      shift_entries-get (s.file_count - 1 - i) i j s.files (omega (arith, valid.table, valid.used))
      ∙ elim (Bool-cases (leb i j)) [
        | inl moved ↦
            let near : ltb j (i + (s.file_count - 1 - i)) ≡ true = ground arith in
            rw (moved, near) refl
        | inr kept ↦ rw kept refl
      ]

  shifted-fields : (j : ℕ) → length (get_or shifted j no_entry).filename ≡ 256
  shifted-fields j =
      ap (λ t. length t.filename)
        (shift_entries-get (s.file_count - 1 - i) i j s.files
          (omega (arith, valid.table, valid.used)))
      ∙ elim (Bool-cases (leb i j && ltb j (i + (s.file_count - 1 - i)))) [
        | inl moved ↦ rw moved (valid.fields (j + 1))
        | inr kept ↦ rw kept (valid.fields j)
      ]

  shifted-Distinct : Distinct shifted (s.file_count - 1)
  shifted-Distinct = record {
    table = length-shift_entries (s.file_count - 1 - i) i s.files ∙ valid.table;
    used = omega (arith, valid.used);
    fields = shifted-fields;
    different = λ j k less in_use same.
        valid.different (from j) (from k) (ground arith) (ground arith) (
          sym (ap (λ t. text t.filename) (shifted-get j (omega arith)))
          ∙ same
          ∙ ap (λ t. text t.filename) (shifted-get k in_use));
  }

  -- The name that has gone is not there any more.
  shifted-none :
      (name : List ℕ)
      → name_at s.files i ≡ text name
      → (j : ℕ) → j < s.file_count - 1
      → name_at shifted j ≢ text name
  shifted-none name here j small same =
      let there : name_at s.files (from j) ≡ name_at s.files i =
        sym (ap (λ t. text t.filename) (shifted-get j small)) ∙ same ∙ sym here in
      elim (Bool-cases (leb i j)) [
        | inl moved ↦ valid.different i (from j) (ground arith) (ground arith) (sym there)
        | inr kept ↦ valid.different (from j) i (ground arith) lt there
      ]

module _ (s : FileSystem) (valid : IsValid s) (name : List ℕ) where
  fs_delete-IsValid : IsValid (fs_delete name s).1
  unfolding fs_delete
  fs_delete-IsValid = elim (Option-cases (find_file name s)) [
    | inl missing ↦ rw (missing, fs_delete) valid
    | inr (i, found) ↦
        rw (found, fs_delete) (shifted-Distinct s valid i (find_file-place name s i found).0)
  ]

  find_file-fs_delete : find_file name (fs_delete name s).1 ≡ none
  unfolding fs_delete find_file
  find_file-fs_delete = elim (Option-cases (find_file name s)) [
    | inl missing ↦ rw (missing, fs_delete) missing
    | inr (i, found) ↦
        let (lt, here) = find_file-place name s i found in
        rw (found, fs_delete)
          (find_index-none_of (is_file name) no_entry (shifted s valid i lt) 0 (s.file_count - 1)
            (λ j lo hi.
              is_file-other name (shifted s valid i lt) j
                (shifted-none s valid i lt name here j (omega arith))))
  ]

-- The calls of a client.
pub data Op : Type 0 where
  create_file : List ℕ → ℕ → Op
  open_file : List ℕ → ℕ → Op
  write_file : ℕ → List ℕ → ℕ → Op
  delete_file : List ℕ → Op

unfoldable pub step : Op → FileSystem → FileSystem
step (create_file name type) s = (fs_create name type s).1
step (open_file name mode) s = (fs_open name mode s).1
step (write_file fd buffer count) s = (fs_write fd buffer count s).1
step (delete_file name) s = (fs_delete name s).1

pub calls_after : List Op → FileSystem → FileSystem
calls_after [] s = s
calls_after (op ∷ ops) s = calls_after ops (step op s)

-- The write stays inside the file system's data and inside the caller's buffer.
pub record Inside (fd : ℕ) (buffer : List ℕ) (count : ℕ) (s : FileSystem) : Type 0 where
  pub in_data : (entry s fd).start_block * block_size + (entry s fd).size + count ≤ length s.bytes
  pub in_buffer : count ≤ length buffer

-- Calls whose names are short and whose writes, each in the state that it meets, stay inside.
pub data AllFit : List Op → FileSystem → Type 0 where
  done : {s : FileSystem} → AllFit [] s
  created :
      {name : List ℕ} {type : ℕ} {ops : List Op} {s : FileSystem}
      → length (text name) < 256
      → AllFit ops (step (create_file name type) s)
      → AllFit (create_file name type ∷ ops) s
  opened :
      {name : List ℕ} {mode : ℕ} {ops : List Op} {s : FileSystem}
      → length (text name) < 256
      → AllFit ops (step (open_file name mode) s)
      → AllFit (open_file name mode ∷ ops) s
  wrote :
      {fd count : ℕ} {buffer : List ℕ} {ops : List Op} {s : FileSystem}
      → Inside fd buffer count s
      → AllFit ops (step (write_file fd buffer count) s)
      → AllFit (write_file fd buffer count ∷ ops) s
  deleted :
      {name : List ℕ} {ops : List Op} {s : FileSystem}
      → AllFit ops (step (delete_file name) s)
      → AllFit (delete_file name ∷ ops) s

-- From a state in which the names of the files differ, every sequence of calls leads to such a state,
-- where no name that is created or opened is longer than 255 bytes and every write stays inside the
-- file system's data; and in the state reached, deleting a name leaves no file with that name.
pub calls_after-IsValid :
    (ops : List Op) (s : FileSystem)
    → IsValid s
    → AllFit ops s
    → let s' = calls_after ops s in
      IsValid s' × ((name : List ℕ) → find_file name (fs_delete name s').1 ≡ none)
unfolding calls_after step
calls_after-IsValid [] s valid short = (valid, λ name. find_file-fs_delete s valid name)
calls_after-IsValid (create_file name type ∷ ops) s valid (created h short) =
    calls_after-IsValid ops _ (fs_create-IsValid s valid name type h) short
calls_after-IsValid (open_file name mode ∷ ops) s valid (opened h short) =
    calls_after-IsValid ops _ (fs_open-IsValid s valid name mode h) short
calls_after-IsValid (write_file fd buffer count ∷ ops) s valid (wrote inside short) =
    calls_after-IsValid ops _ (fs_write-IsValid s valid fd buffer count) short
calls_after-IsValid (delete_file name ∷ ops) s valid (deleted short) =
    calls_after-IsValid ops _ (fs_delete-IsValid s valid name) short
