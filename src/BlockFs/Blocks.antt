-- ===== src/BlockFs/Blocks.antt =====
-- The search of `alloc_block`, which passes over full words, and a plain search of the bitmap.
use minimalist_os.Base.{
  ℕ, zero, suc, ◌+◌, ◌*◌, ◌/◌, ◌%◌, ◌≤◌, ◌<◌, ◌≡◌, refl, sym, ap, ◌∙◌, List, Option, none, some,
  inl, inr, ◌==◌, get_or, arith, Bool-cases, Option-cases,
}
use minimalist_os.Base.Bits.{test_bit}
use minimalist_os.Base.Bitmap.{is_used, mark_used, first_free}
use minimalist_os.BlockFs.{FileSystem, free_bit, free_word, alloc_block}

-- A search of a range is a search of its first part and then of the rest.
first_free-split :
    (bitmap : List ℕ) (i a b n : ℕ)
    → n ≡ a + b
    → first_free bitmap i n
      ≡ elim (first_free bitmap i a) [ some k ↦ some k | none ↦ first_free bitmap (i + a) b ]
unfolding first_free
first_free-split bitmap i zero b n e =
    ap (λ m. first_free bitmap i m) {x = n} {y = b} (omega (arith, e))
    ∙ ap (λ j. first_free bitmap j b) {x = i} {y = i + 0} (omega arith)
first_free-split bitmap i (suc a) b zero e = absurd (omega (arith, e))
first_free-split bitmap i (suc a) b (suc n) e = elim (Bool-cases (is_used bitmap i)) [
  | inl used ↦ rw used (
      first_free-split bitmap (suc i) a b n (omega (arith, e))
      ∙ ap
          (λ j. elim (first_free bitmap (suc i) a) [
            | some k ↦ some k
            | none ↦ first_free bitmap j b
          ])
          {x = suc i + a} {y = i + suc a} (omega arith))
  | inr free ↦ rw free refl
]

-- In a word, the search by bits is the search by entries.
free_bit-first_free :
    (bitmap : List ℕ) (i j n : ℕ)
    → j + n ≤ 32
    → first_free bitmap (i * 32 + j) n
      ≡ elim (free_bit (get_or bitmap i 0) j n) [ some k ↦ some (i * 32 + k) | none ↦ none ]
unfolding first_free free_bit is_used
free_bit-first_free bitmap i j zero h = refl
free_bit-first_free bitmap i j (suc n) h =
    let word = get_or bitmap i 0 in
    let at : is_used bitmap (i * 32 + j) ≡ test_bit word j =
      ap (λ w. test_bit (get_or bitmap w 0) ((i * 32 + j) % 32)) {x = (i * 32 + j) / 32} {y = i}
        (omega arith)
      ∙ ap (test_bit word) {x = (i * 32 + j) % 32} {y = j} (omega arith) in
    let later : first_free bitmap (suc (i * 32 + j)) n
        ≡ elim (free_bit word (suc j) n) [ some k ↦ some (i * 32 + k) | none ↦ none ] =
      ap (λ k. first_free bitmap k n) {x = suc (i * 32 + j)} {y = i * 32 + suc j} (omega arith)
      ∙ free_bit-first_free bitmap i (suc j) n (omega arith) in
    elim (Bool-cases (test_bit word j)) [
      | inl used ↦ rw (at ∙ used, used, first_free, free_bit) later
      | inr free ↦ rw (at ∙ free, free, first_free, free_bit) refl
    ]

free_bit-lt : (word j n k : ℕ) → free_bit word j n ≡ some k → k < j + n
unfolding free_bit
free_bit-lt word j zero k h = absurd (cc h)
free_bit-lt word j (suc n) k h = elim (Bool-cases (test_bit word j)) [
  | inl used ↦ omega (arith, free_bit-lt word (suc j) n k (rw used at h))
  | inr free ↦ ground arith
]

-- A word that is passed over has no free bit.
free_bit-full : (word : ℕ) → word ≡ 0xFFFFFFFF → free_bit word 0 32 ≡ none
unfolding free_bit test_bit
free_bit-full word e = ap (λ w. free_bit w 0 32) e

free_word-open :
    (bitmap : List ℕ) (i n : ℕ)
    → free_word bitmap i (suc n) ≡ elim (free_bit (get_or bitmap i 0) 0 32) [
      | some j ↦ some (i, j)
      | none ↦ free_word bitmap (suc i) n
    ]
unfolding free_word
free_word-open bitmap i n = elim (Bool-cases (get_or bitmap i 0 == 0xFFFFFFFF)) [
  | inl full ↦
      let empty : free_bit (get_or bitmap i 0) 0 32 ≡ none = free_bit-full _ (ground arith) in
      rw (full, empty) refl
  | inr other ↦ rw other refl
]

free_word-first_free :
    (bitmap : List ℕ) (i n : ℕ)
    → first_free bitmap (i * 32) (n * 32)
      ≡ elim (free_word bitmap i n) [ some (w, j) ↦ some (w * 32 + j) | none ↦ none ]
unfolding first_free free_word
free_word-first_free bitmap i zero = refl
free_word-first_free bitmap i (suc n) =
    let first : first_free bitmap (i * 32) 32
        ≡ elim (free_bit (get_or bitmap i 0) 0 32) [ some k ↦ some (i * 32 + k) | none ↦ none ] =
      ap (λ k. first_free bitmap k 32) {x = i * 32} {y = i * 32 + 0} (omega arith)
      ∙ free_bit-first_free bitmap i 0 32 (omega arith) in
    let rest =
      ap (λ k. first_free bitmap k (n * 32)) {x = i * 32 + 32} {y = suc i * 32} (omega arith)
      ∙ free_word-first_free bitmap (suc i) n in
    let opened = free_word-open bitmap i n in
    first_free-split bitmap (i * 32) 32 (n * 32) (suc n * 32) (omega arith)
    ∙ elim (Option-cases (free_bit (get_or bitmap i 0) 0 32)) [
      | inl none_free ↦ rw (opened, first, none_free) rest
      | inr (j, found) ↦ rw (opened, first, found) refl
    ]

abbrev second : Option (ℕ × ℕ) → ℕ
second none = 0
second (some (i, j)) = j

free_word-lt : (bitmap : List ℕ) (i n w j : ℕ) → free_word bitmap i n ≡ some (w, j) → j < 32
unfolding free_word
free_word-lt bitmap i zero w j h = absurd (cc h)
free_word-lt bitmap i (suc n) w j h =
    let h' = sym (free_word-open bitmap i n) ∙ h in
    elim (Option-cases (free_bit (get_or bitmap i 0) 0 32)) [
      | inl none_free ↦ free_word-lt bitmap (suc i) n w j (rw none_free at h')
      | inr (k, found) ↦
          let at : Option (ℕ × ℕ) = some (i, k) in
          let same : at ≡ some (w, j) = rw found at h' in
          let e : k ≡ j = ap (λ t. second t) same in omega (arith, e, free_bit-lt _ 0 32 k found)
    ]

-- `alloc_block`, which passes over the words whose bits are all on, takes the first free of the 2048
-- blocks and marks it, and nothing else; where all are used it gives 0 and changes nothing.
pub alloc_block-first_free :
    (s : FileSystem)
    → alloc_block s ≡ elim (first_free s.bitmap 0 2048) [
      | none ↦ (0, s)
      | some k ↦ (k, record s { bitmap = mark_used s.bitmap k })
    ]
unfolding alloc_block mark_used
alloc_block-first_free s =
    let searched = free_word-first_free s.bitmap 0 64 in
    elim (Option-cases (free_word s.bitmap 0 64)) [
      | inl full ↦ rw (searched, full, alloc_block) refl
      | inr ((i, j), found) ↦
          let small = free_word-lt s.bitmap 0 64 i j found in
          let word : (i * 32 + j) / 32 ≡ i = omega arith in
          let bit : (i * 32 + j) % 32 ≡ j = omega arith in
          rw (searched, found, word, bit, alloc_block) refl
    ]
