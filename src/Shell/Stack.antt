-- ===== src/Shell/Stack.antt =====
-- The line that is edited, as a stack of characters.
use mathlib.Core.Path.{subst}
use minimalist_os.Base.{
  ℕ, zero, suc, ◌+◌, ◌-◌, ◌≤◌, ◌<◌, ◌≡◌, refl, sym, ap, ◌∙◌, List, [], ◌∷◌, true, false, ◌||◌, inl,
  inr, ltb, ◌==◌, if◌then◌else◌, set, get_or, length, replicate, arith, Bool-cases,
}
use minimalist_os.Shell.{Shell, Line, type_key, is_blank, trim, end_line}

-- A key: 8 and 127 take the last character away, and at most 255 are kept. The last one is first.
unfoldable pub key : ℕ → List ℕ → List ℕ
key c stack =
    if c == 8 || c == 0x7F
    then (elim stack [ [] ↦ [] | d ∷ rest ↦ rest ])
    else if ltb (length stack) 255
    then c ∷ stack
    else stack

unfoldable pub typed : List ℕ → List ℕ → List ℕ
typed [] stack = stack
typed (c ∷ keys) stack = typed keys (key c stack)

-- Without the blanks at the end of the line.
unfoldable pub trimmed : List ℕ → List ℕ
trimmed [] = []
trimmed (c ∷ stack) = let rest = trimmed stack in if is_blank c then rest else c ∷ stack

-- The characters in their order, before a suffix.
unfoldable pub lay : List ℕ → List ℕ → List ℕ
lay [] suffix = suffix
lay (c ∷ stack) suffix = lay stack (c ∷ suffix)

set-lay :
    (stack suffix : List ℕ) (k v : ℕ)
    → set (lay stack suffix) (length stack + k) v ≡ lay stack (set suffix k v)
unfolding lay
set-lay [] suffix k v = ap (λ i. set suffix i v) {x = 0 + k} {y = k} (omega arith)
set-lay (c ∷ stack) suffix k v =
    ap (λ i. set (lay stack (c ∷ suffix)) i v) {x = suc (length stack) + k}
      {y = length stack + suc k} (omega arith)
    ∙ set-lay stack (c ∷ suffix) (suc k) v

get-lay :
    (stack suffix : List ℕ) (k : ℕ)
    → get_or (lay stack suffix) (length stack + k) 0 ≡ get_or suffix k 0
unfolding lay
get-lay [] suffix k = ap (λ i. get_or suffix i 0) {x = 0 + k} {y = k} (omega arith)
get-lay (c ∷ stack) suffix k =
    ap (λ i. get_or (lay stack (c ∷ suffix)) i 0) {x = suc (length stack) + k}
      {y = length stack + suc k} (omega arith)
    ∙ get-lay stack (c ∷ suffix) (suc k)

-- The buffer of a line.
unfoldable pub held : List ℕ → List ℕ
held stack = lay stack (replicate (256 - length stack) 0)

pub record Holds (stack : List ℕ) (l : Line) : Type 0 where
  pub buffer : l.input_buffer ≡ held stack
  pub position : l.buffer_pos ≡ length stack
  pub short : length stack ≤ 255

blanks : (n : ℕ) → 0 < n → replicate {A = ℕ} n 0 ≡ 0 ∷ replicate (n - 1) 0
blanks zero h = absurd (omega arith)
blanks (suc n) h = ap (λ k. 0 ∷ replicate k 0) {x = n} {y = suc n - 1} (omega arith)

-- A character more.
held-push :
    (stack : List ℕ) (c : ℕ)
    → length stack ≤ 255
    → set (held stack) (length stack) c ≡ held (c ∷ stack)
unfolding held lay
held-push stack c h =
    let n = length stack in
    ap (λ zs. set (lay stack zs) n c) (blanks (256 - n) (omega arith))
    ∙ ap (λ i. set (lay stack (0 ∷ replicate (256 - n - 1) 0)) i c) {x = n} {y = n + 0}
        (omega arith)
    ∙ set-lay stack (0 ∷ replicate (256 - n - 1) 0) 0 c
    ∙ ap (λ k. lay stack (c ∷ replicate k 0)) {x = 256 - n - 1} {y = 256 - suc n} (omega arith)

-- One character less.
held-pop :
    (stack : List ℕ) (c : ℕ)
    → length stack ≤ 255
    → set (held (c ∷ stack)) (length stack) 0 ≡ held stack
unfolding held lay
held-pop stack c h =
    let n = length stack in
    ap (λ i. set (lay stack (c ∷ replicate (256 - suc n) 0)) i 0) {x = n} {y = n + 0} (omega arith)
    ∙ set-lay stack (c ∷ replicate (256 - suc n) 0) 0 0
    ∙ ap (λ k. lay stack (0 ∷ replicate k 0)) {x = 256 - suc n} {y = 256 - n - 1} (omega arith)
    ∙ ap (lay stack) (sym (blanks (256 - n) (omega arith)))

held-end : (stack : List ℕ) → length stack ≤ 255 → set (held stack) (length stack) 0 ≡ held stack
unfolding held lay
held-end stack h =
    let n = length stack in
    held-push stack 0 h
    ∙ ap (λ k. lay stack (0 ∷ replicate k 0)) {x = 256 - suc n} {y = 256 - n - 1} (omega arith)
    ∙ ap (lay stack) (sym (blanks (256 - n) (omega arith)))

module _ (stack : List ℕ) (l : Line) (h : Holds stack l) where
  set-position : (c : ℕ) → set l.input_buffer l.buffer_pos c ≡ set (held stack) (length stack) c
  set-position c =
      ap (λ b. set b l.buffer_pos c) h.buffer ∙ ap (λ i. set (held stack) i c) h.position

  -- A key that is no backspace.
  type_key-other :
      (c : ℕ) (s : Shell)
      → (c == 8 || c == 0x7F) ≡ false
      → Holds (if ltb (length stack) 255 then c ∷ stack else stack) (type_key c l s).0
  unfolding type_key
  type_key-other c s other = elim (Bool-cases (ltb (length stack) 255)) [
    | inl room ↦
        let room' : ltb l.buffer_pos 255 ≡ true = ground (arith, h.position) in
        rw (other, room, room', type_key)
          (record {
            buffer = set-position c ∙ held-push stack c h.short;
            position =
                (let e : l.buffer_pos + 1 ≡ suc (length stack) = omega (arith, h.position) in e);
            short = ground arith;
          })
    | inr full ↦
        let full' : ltb l.buffer_pos 255 ≡ false = ground (arith, h.position) in
        rw (other, full, full', type_key) h
  ]

key-other :
    (c : ℕ) (stack : List ℕ)
    → (c == 8 || c == 0x7F) ≡ false
    → key c stack ≡ (if ltb (length stack) 255 then c ∷ stack else stack)
unfolding key
key-other c stack other = rw other refl

pub type_key-Holds :
    (c : ℕ) (stack : List ℕ) (l : Line) (s : Shell)
    → Holds stack l
    → Holds (key c stack) (type_key c l s).0
unfolding type_key key
type_key-Holds c [] l s h = elim (Bool-cases (c == 8 || c == 0x7F)) [
  | inl back ↦
      let none_left : ltb 0 l.buffer_pos ≡ false = ground (arith, h.position) in
      rw (back, none_left, type_key, key) h
  | inr other ↦
      subst (λ t. Holds t (type_key c l s).0) (sym (key-other c [] other))
        (type_key-other [] l h c s other)
]
type_key-Holds c (d ∷ stack) l s h = elim (Bool-cases (c == 8 || c == 0x7F)) [
  | inl back ↦
      let some_left : ltb 0 l.buffer_pos ≡ true = ground (arith, h.position) in
      let before : l.buffer_pos - 1 ≡ length stack = omega (arith, h.position) in
      rw (back, some_left, type_key, key)
        (record {
          buffer =
              ap (λ b. set b (l.buffer_pos - 1) 0) h.buffer
              ∙ ap (λ i. set (held (d ∷ stack)) i 0) before
              ∙ held-pop stack d (omega (arith, h.short));
          position = before;
          short = omega (arith, h.short);
        })
  | inr other ↦
      subst (λ t. Holds t (type_key c l s).0) (sym (key-other c (d ∷ stack) other))
        (type_key-other (d ∷ stack) l h c s other)
]

trim-Holds :
    (stack : List ℕ) → length stack ≤ 255 → Holds (trimmed stack) (trim (length stack) (held stack))
unfolding trim trimmed held lay
trim-Holds [] h = record { buffer = refl; position = refl; short = omega arith }
trim-Holds (c ∷ stack) h =
    let n = length stack in
    let zeros = replicate (256 - suc n) 0 in
    let last : get_or (held (c ∷ stack)) n 0 ≡ c =
      ap (λ i. get_or (lay stack (c ∷ zeros)) i 0) {x = n} {y = n + 0} (omega arith)
      ∙ get-lay stack (c ∷ zeros) 0 in
    elim (Bool-cases (is_blank c)) [
      | inl blank ↦
          let blank' : is_blank (get_or (held (c ∷ stack)) n 0) ≡ true = ap is_blank last ∙ blank in
          rw (blank, blank', trim)
            (subst (λ b. Holds (trimmed stack) (trim n b)) (sym (held-pop stack c (omega arith)))
              (trim-Holds stack (omega arith)))
      | inr kept ↦
          let kept' : is_blank (get_or (held (c ∷ stack)) n 0) ≡ false = ap is_blank last ∙ kept in
          rw (kept, kept', trim) (record { buffer = refl; position = refl; short = h })
    ]

pub end_line-Holds :
    (stack : List ℕ) (l : Line) → Holds stack l → Holds (trimmed stack) (end_line l)
unfolding end_line
end_line-Holds stack l h =
    subst (λ t. Holds (trimmed stack) t)
      (sym (
        ap (trim l.buffer_pos) (set-position stack l h 0 ∙ held-end stack h.short)
        ∙ ap (λ n. trim n (held stack)) h.position))
      (trim-Holds stack h.short)
