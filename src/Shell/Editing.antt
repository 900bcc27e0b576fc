-- ===== src/Shell/Editing.antt =====
-- What a line holds when it ends.
use minimalist_os.Base.{
  ℕ, zero, suc, ◌-◌, ◌≤◌, ◌≡◌, ◌≢◌, refl, ap, ◌∙◌, List, [], ◌∷◌, ◌++◌, false, ◌||◌, inl, inr, some,
  ltb, ◌==◌, length, replicate, arith, Bool-cases,
}
use minimalist_os.CString.{text}
use minimalist_os.Shell.{Shell, Line, blank_line, type_key, is_blank, end_line, read_line}
use minimalist_os.Shell.Stack.{
  key, typed, trimmed, lay, held, Holds, type_key-Holds, end_line-Holds,
}

-- The keys of a line: none is a line's end or 0.
pub data AllKeys : List ℕ → Type 0 where
  done : AllKeys []
  typed_key : {c : ℕ} {keys : List ℕ} → c ≢ 0 → c ≢ 10 → c ≢ 13 → AllKeys keys → AllKeys (c ∷ keys)

data NonZero : List ℕ → Type 0 where
  bottom : NonZero []
  above : {c : ℕ} {stack : List ℕ} → c ≢ 0 → NonZero stack → NonZero (c ∷ stack)

tail-NonZero : (stack : List ℕ) → NonZero stack → NonZero (elim stack [ [] ↦ [] | d ∷ rest ↦ rest ])
tail-NonZero [] bottom = bottom
tail-NonZero (c ∷ stack) (above ne h) = h

key-NonZero : (c : ℕ) (stack : List ℕ) → c ≢ 0 → NonZero stack → NonZero (key c stack)
unfolding key
key-NonZero c stack ne h = elim (Bool-cases (c == 8 || c == 0x7F)) [
  | inl back ↦ rw (back, key) (tail-NonZero stack h)
  | inr other ↦ elim (Bool-cases (ltb (length stack) 255)) [
    | inl room ↦ rw (other, room, key) (above ne h)
    | inr full ↦ rw (other, full, key) h
  ]
]

trimmed-NonZero : (stack : List ℕ) → NonZero stack → NonZero (trimmed stack)
unfolding trimmed
trimmed-NonZero [] bottom = bottom
trimmed-NonZero (c ∷ stack) (above ne h) = elim (Bool-cases (is_blank c)) [
  | inl blank ↦ rw (blank, trimmed) (trimmed-NonZero stack h)
  | inr kept ↦ rw (kept, trimmed) (above ne h)
]

text-lay :
    (stack suffix : List ℕ) → NonZero stack → text (lay stack suffix) ≡ lay stack (text suffix)
unfolding text lay
text-lay [] suffix h = refl
text-lay (c ∷ stack) suffix (above ne h) =
    let some_char : (c == 0) ≡ false = ground arith in
    text-lay stack (c ∷ suffix) h ∙ ap (lay stack) (rw some_char refl)

text-zeros : (n : ℕ) → text (replicate n 0) ≡ []
unfolding text
text-zeros zero = refl
text-zeros (suc n) = refl

-- What a line that has ended holds.
pub record Edited (stack : List ℕ) (l : Line) : Type 0 where
  pub command : text l.input_buffer ≡ lay stack []
  pub count : l.buffer_pos ≡ length stack
  pub bounded : l.buffer_pos ≤ 255

Holds-Edited : (stack : List ℕ) (l : Line) → NonZero stack → Holds stack l → Edited stack l
unfolding held
Holds-Edited stack l nz h =
    let zeros = replicate (256 - length stack) 0 in
    record {
      command =
          ap text h.buffer
          ∙ text-lay stack zeros nz
          ∙ ap (lay stack) (text-zeros (256 - length stack));
      count = h.position;
      bounded = omega (arith, h.position, h.short);
    }

read_line-keys :
    (keys rest stack : List ℕ) (l : Line) (s : Shell)
    → AllKeys keys
    → NonZero stack
    → Holds stack l
    → (l' : Line) × (s' : Shell) × (read_line (keys ++ (10 ∷ rest)) l s ≡ some (rest, l', s'))
      × Edited (trimmed (typed keys stack)) l'
unfolding read_line typed
read_line-keys [] rest stack l s done nz h = (
  end_line l,
  _,
  refl,
  Holds-Edited (trimmed stack) (end_line l) (trimmed-NonZero stack nz) (end_line-Holds stack l h),
)
read_line-keys (c ∷ keys) rest stack l s (typed_key zero_ne line_ne return_ne all) nz h =
    let a : (c == 0) ≡ false = ground arith in
    let b : (c == 10) ≡ false = ground arith in
    let d : (c == 13) ≡ false = ground arith in
    let (l1, s1) = type_key c l s in
    let (l', s', e, edited) =
      read_line-keys keys rest (key c stack) l1 s1 all (key-NonZero c stack zero_ne nz)
        (type_key-Holds c stack l s h) in
    (l', s', rw (a, b, d, read_line) e, edited)

-- Whatever keys are typed before the end of a line, the buffer that `shell_run` hands to the command
-- then holds the characters that the backspaces have left, at most 255 of them, without the blanks at
-- the end, and the position is their number: the buffer of 256 bytes is never left.
pub read_line-Edited :
    (keys rest : List ℕ) (s : Shell)
    → AllKeys keys
    → (l : Line) × (s' : Shell) × (read_line (keys ++ (10 ∷ rest)) blank_line s
        ≡ some (rest, l, s'))
      × Edited (trimmed (typed keys [])) l
unfolding held lay
read_line-Edited keys rest s all =
    read_line-keys keys rest [] blank_line s all bottom
      (record { buffer = refl; position = refl; short = omega arith })
