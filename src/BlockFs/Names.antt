-- ===== src/BlockFs/Names.antt =====
-- The names of the files, and when they differ.
use minimalist_os.Base.{
  ℕ, zero, suc, ◌+◌, ◌≤◌, ◌<◌, ◌≡◌, ◌≢◌, refl, sym, ap, ◌∙◌, List, true, false, ◌&&◌, inl, inr,
  none, some, is_zero, is_zero-pos, ltb, leb, ◌==◌, if◌then◌else◌, get_or, set, length, length-set,
  arith, Bool-cases,
}
use minimalist_os.Base.Search.{find_index-none, find_index-Found, get_or-set}
use minimalist_os.BlockFs.{FileEntry, FileSystem, no_entry, is_file, find_file, shift_entries}
use minimalist_os.CString.Compare.{strcmp-zero_iff}
use minimalist_os.CString.{text}

abbrev pub name_at : List FileEntry → ℕ → List ℕ
name_at files i = text (get_or files i no_entry).filename

-- The table of the files: 64 entries, each with a field of 256 bytes for the name, of which the
-- first `n` are in use and have different names.
pub record Distinct (files : List FileEntry) (n : ℕ) : Type 0 where
  pub table : length files ≡ 64
  pub used : n ≤ 64
  pub fields : (i : ℕ) → length (get_or files i no_entry).filename ≡ 256
  pub different : (i j : ℕ) → i < j → j < n → name_at files i ≢ name_at files j

is_file-name_at :
    (name : List ℕ) (files : List FileEntry) (i : ℕ)
    → name_at files i ≡ text name
    → is_file name (get_or files i no_entry) ≡ true
unfolding is_file
is_file-name_at name files i e =
    ap is_zero ((strcmp-zero_iff (get_or files i no_entry).filename name).1 e)

-- A name that is not found is none of the names in use.
pub find_file-none :
    (name : List ℕ) (s : FileSystem)
    → find_file name s ≡ none
    → (i : ℕ) → i < s.file_count
    → name_at s.files i ≢ text name
unfolding find_file
find_file-none name s h i lt e =
    let miss =
      find_index-none (is_file name) no_entry s.files 0 s.file_count h i (omega arith)
        (omega arith) in
    cc (miss, is_file-name_at name s.files i e)

-- A name that is found is in use there.
pub find_file-place :
    (name : List ℕ) (s : FileSystem) (i : ℕ)
    → find_file name s ≡ some i
    → (i < s.file_count) × (name_at s.files i ≡ text name)
unfolding find_file is_file
find_file-place name s i h =
    let f = find_index-Found (is_file name) no_entry s.files 0 s.file_count i h in
    (
      omega (arith, f.below),
      (strcmp-zero_iff (get_or s.files i no_entry).filename name).0 (is_zero-pos _ f.passes),
    )

pub is_file-other :
    (name : List ℕ) (files : List FileEntry) (i : ℕ)
    → name_at files i ≢ text name
    → is_file name (get_or files i no_entry) ≡ false
unfolding is_file
is_file-other name files i ne = elim (Bool-cases (is_file name (get_or files i no_entry))) [
  | inl same ↦
      absurd (ne ((strcmp-zero_iff (get_or files i no_entry).filename name).0 (is_zero-pos _ same)))
  | inr other ↦ other
]

set-get :
    (files : List FileEntry) (n i : ℕ) (e : FileEntry)
    → n < length files
    → get_or (set files n e) i no_entry ≡ (if n == i then e else get_or files i no_entry)
set-get files n i e lt = get_or-set files n i e no_entry lt

module _ (files : List FileEntry) (n : ℕ) (h : Distinct files n) where
  -- An entry that replaces one, with a field for the name.
  module _ (k : ℕ) (e : FileEntry) (inside : k < 64) (wide : length e.filename ≡ 256) where
    name_at-set :
        (i : ℕ) → name_at (set files k e) i ≡ (if k == i then text e.filename else name_at files i)
    name_at-set i =
        ap (λ t. text t.filename) (set-get files k i e (omega (arith, h.table)))
        ∙ elim (Bool-cases (k == i)) [ inl same ↦ rw same refl | inr other ↦ rw other refl ]

    fields-set : (i : ℕ) → length (get_or (set files k e) i no_entry).filename ≡ 256
    fields-set i =
        ap (λ t. length t.filename) (set-get files k i e (omega (arith, h.table)))
        ∙ elim (Bool-cases (k == i)) [ inl same ↦ rw same wide | inr other ↦ rw other (h.fields i) ]

    -- With another name in use at its place.
    name_at-other : (i : ℕ) → k ≢ i → name_at (set files k e) i ≡ name_at files i
    name_at-other i ne = name_at-set i ∙ (let off : (k == i) ≡ false = ground arith in rw off refl)

    -- An entry behind the last one, with a name that no other has.
    pub Distinct-append :
        k ≡ n
        → ((i : ℕ) → i < n → name_at files i ≢ text e.filename)
        → Distinct (set files k e) (n + 1)
    Distinct-append last fresh = record {
      table = length-set files k e ∙ h.table;
      used = omega arith;
      fields = fields-set;
      different = λ i j lt in_use same.
          let below = name_at-other i (λ f. omega arith) in
          elim (Bool-cases (k == j)) [
            | inl at_end ↦
                let there : name_at (set files k e) j ≡ text e.filename =
                  name_at-set j ∙ rw at_end refl in
                fresh i (ground arith) (sym below ∙ same ∙ there)
            | inr inner ↦
                let there = name_at-other j (λ f. ground arith) in
                h.different i j lt (ground arith) (sym below ∙ same ∙ there)
          ];
    }

    -- An entry whose name stays, or which is not in use.
    pub Distinct-set : (k < n → text e.filename ≡ name_at files k) → Distinct (set files k e) n
    Distinct-set kept =
        let same_name : (i : ℕ) → i < n → name_at (set files k e) i ≡ name_at files i = λ i lt.
          elim (Bool-cases (k == i)) [
            | inl here ↦
                let f : k ≡ i = ground arith in
                name_at-set i ∙ (rw here (kept (omega arith) ∙ ap (name_at files) f))
            | inr other ↦ name_at-other i (λ f. ground arith)
          ] in
        record {
          table = length-set files k e ∙ h.table;
          used = h.used;
          fields = fields-set;
          different = λ i j lt in_use same.
              h.different i j lt in_use
                (sym (same_name i (omega arith)) ∙ same ∙ same_name j in_use);
        }

-- The entries behind the `i`-th move down by one.
pub shift_entries-get :
    (k i j : ℕ) (xs : List FileEntry)
    → i + k < length xs
    → get_or (shift_entries k i xs) j no_entry
      ≡ (if leb i j && ltb j (i + k) then get_or xs (j + 1) no_entry else get_or xs j no_entry)
unfolding shift_entries
shift_entries-get zero i j xs room =
    let off : (leb i j && ltb j (i + 0)) ≡ false = ground arith in rw off refl
shift_entries-get (suc k) i j xs room =
    let e = get_or xs (i + 1) no_entry in
    let ih = shift_entries-get k (i + 1) j (set xs i e) (omega (arith, length-set xs i e)) in
    let now = set-get xs i j e (omega arith) in
    let next = set-get xs i (j + 1) e (omega arith) in
    elim (Bool-cases (i == j)) [
      | inl same ↦
          let f : i ≡ j = ground arith in
          let off : (leb (i + 1) j && ltb j (i + 1 + k)) ≡ false = ground arith in
          let on : (leb i j && ltb j (i + suc k)) ≡ true = ground arith in
          rw on (ih ∙ rw off (now ∙ rw same (ap (λ t. get_or xs (t + 1) no_entry) f)))
      | inr other ↦ elim (Bool-cases (leb (i + 1) j && ltb j (i + 1 + k))) [
        | inl moved ↦
            let on : (leb i j && ltb j (i + suc k)) ≡ true = ground arith in
            let not_next : (i == j + 1) ≡ false = ground arith in
            rw on (ih ∙ rw moved (next ∙ rw not_next refl))
        | inr kept ↦
            let off : (leb i j && ltb j (i + suc k)) ≡ false = ground arith in
            rw off (ih ∙ rw kept (now ∙ rw other refl))
      ]
    ]

pub length-shift_entries :
    (k i : ℕ) (xs : List FileEntry) → length (shift_entries k i xs) ≡ length xs
unfolding shift_entries
length-shift_entries zero i xs = refl
length-shift_entries (suc k) i xs = length-shift_entries k (i + 1) _ ∙ length-set xs i _
