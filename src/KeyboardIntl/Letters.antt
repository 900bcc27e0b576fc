-- ===== src/KeyboardIntl/Letters.antt =====
-- The letters of the American and the French layout, with shift and caps lock.
use minimalist_os.Base.{
  ℕ, zero, suc, ◌-◌, ◌≤◌, ◌<◌, ◌≡◌, ◌≢◌, refl, ap, Bool, true, false, not, ◌&&◌, ◌||◌, inl, inr,
  none, some, leb, ◌==◌, if◌then◌else◌, get_or, arith, Bool-cases,
}
use minimalist_os.Base.Finite.{all_below-get}
use minimalist_os.KeyboardIntl.Layouts.{Layout}
use minimalist_os.KeyboardIntl.{
  KeyboardState, layout, handle_special_keys, apply_caps_lock, character_map, key_char, wait_key,
  keyboard_intl_getchar,
}
use minimalist_os.Ports.{Ports, inb}

-- The key has a small letter without shift, and a capital one with it.
unfoldable pub is_letter : Layout → ℕ → Bool
is_letter l k =
    let c = get_or l.scancode_to_ascii k 0 in
    let d = get_or l.scancode_to_ascii_shift k 0 in
    leb b'a' c && leb c b'z' && leb b'A' d && leb d b'Z'

-- None of the scancodes with a case of their own below 128.
is_plain : ℕ → Bool
is_plain k =
    not (k == 0x2A || k == 0x36 || k == 0x1D || k == 0x38 || k == 0x3A || k == 0x45 || k == 0x46)

-- A letter has its capital one in the other table, and its key is no special key.
pairs : Layout → ℕ → Bool
pairs l k =
    not (is_letter l k)
    || ((get_or l.scancode_to_ascii_shift k 0 == get_or l.scancode_to_ascii k 0 - 32) && is_plain k)

layout-pairs : (n k : ℕ) → n ≢ 1 → k < 128 → pairs (layout n) k ≡ true
unfolding pairs is_letter is_plain layout
layout-pairs zero k other small = all_below-get 128 k (pairs (layout 0)) refl small
layout-pairs (suc zero) k other small = absurd (other refl)
layout-pairs (suc (suc zero)) k other small = all_below-get 128 k (pairs (layout 2)) refl small
layout-pairs (suc (suc (suc n))) k other small = refl

-- Only the German layout has a table for the right Alt key.
layout-altgr : (n : ℕ) → n ≢ 1 → (layout n).scancode_to_ascii_altgr ≡ none
unfolding layout
layout-altgr zero other = refl
layout-altgr (suc zero) other = absurd (other refl)
layout-altgr (suc (suc zero)) other = refl
layout-altgr (suc (suc (suc n))) other = refl

-- Shift and caps lock each change the case of a small letter, and both together leave it.
pub letter_case : ℕ → ℕ → ℕ → ℕ
letter_case shift caps c =
    if shift == 0 then (if caps == 0 then c else c - 32) else (if caps == 0 then c - 32 else c)

apply_caps_lock-letter :
    (shift caps c : ℕ)
    → 97 ≤ c
    → c ≤ 122
    → apply_caps_lock caps (if shift == 0 then c else c - 32) ≡ letter_case shift caps c
unfolding apply_caps_lock letter_case
apply_caps_lock-letter shift caps c lo hi = ground arith

module _ (s : KeyboardState) (k : ℕ) (other : s.current_layout ≢ 1) (small : k < 128)
    (letter : is_letter (layout s.current_layout) k ≡ true) where
  abbrev plain : ℕ
  plain = get_or (layout s.current_layout).scancode_to_ascii k 0

  capital : get_or (layout s.current_layout).scancode_to_ascii_shift k 0 ≡ plain - 32
  unfolding pairs
  capital = ground (arith, layout-pairs s.current_layout k other small, letter)

  unspecial : is_plain k ≡ true
  unfolding pairs
  unspecial = ground (arith, layout-pairs s.current_layout k other small, letter)

  by_shift :
      let l = layout s.current_layout in
      get_or (if s.shift_pressed == 0 then l.scancode_to_ascii else l.scancode_to_ascii_shift) k 0
      ≡ (if s.shift_pressed == 0 then plain else plain - 32)
  by_shift = elim (Bool-cases (s.shift_pressed == 0)) [
    | inl up ↦ rw up refl
    | inr down ↦ rw down capital
  ]

  character_map-get :
      get_or (character_map s) k 0 ≡ (if s.shift_pressed == 0 then plain else plain - 32)
  unfolding character_map
  character_map-get =
      let none_altgr = layout-altgr s.current_layout other in
      elim (Bool-cases (s.altgr_pressed == 0)) [
        | inl up ↦ rw (up, character_map) by_shift
        | inr down ↦ rw (down, none_altgr, character_map) by_shift
      ]

  key_char-letter : key_char k s ≡ letter_case s.shift_pressed s.caps_lock plain
  unfolding key_char is_letter
  key_char-letter =
      let low : leb 128 k ≡ false = ground arith in
      let mapped = character_map-get in
      rw (low, mapped)
        (apply_caps_lock-letter s.shift_pressed s.caps_lock plain (ground (arith, letter))
          (ground (arith, letter)))

  handle_special_keys-plain :
      (polls : ℕ) (p : Ports) → handle_special_keys polls k s p ≡ some (s, p)
  unfolding handle_special_keys is_plain
  handle_special_keys-plain polls p =
      let a : (k == 0x2A || k == 0x36) ≡ false = ground (arith, unspecial) in
      let b : (k == 0xAA || k == 0xB6) ≡ false = ground arith in
      let c : (k == 0x1D) ≡ false = ground (arith, unspecial) in
      let d : (k == 0x9D) ≡ false = ground arith in
      let e : (k == 0x38) ≡ false = ground (arith, unspecial) in
      let f : (k == 0xB8) ≡ false = ground arith in
      let g : (k == 0xE0) ≡ false = ground arith in
      let h : (k == 0x3A) ≡ false = ground (arith, unspecial) in
      let i : (k == 0x45) ≡ false = ground (arith, unspecial) in
      let j : (k == 0x46) ≡ false = ground (arith, unspecial) in
      rw (a, b, c, d, e, f, g, h, i, j) refl

-- In every layout but the German one, when a key comes in within `polls` looks at the status and it is
-- a letter, `keyboard_intl_getchar` returns this letter: a capital one if exactly one of shift and caps
-- lock is on, and a small one otherwise; the state stays as it was.
pub keyboard_intl_getchar-letter :
    (polls : ℕ) (s : KeyboardState) (p p' : Ports)
    → s.current_layout ≢ 1
    → wait_key polls p ≡ some p'
    → let (k, p'') = inb 0x60 p' in
      k < 128
      → is_letter (layout s.current_layout) k ≡ true
      → keyboard_intl_getchar polls s p
        ≡ some (
          letter_case s.shift_pressed s.caps_lock
              (get_or (layout s.current_layout).scancode_to_ascii k 0),
          s,
          p'',
        )
unfolding keyboard_intl_getchar
keyboard_intl_getchar-letter polls s p p' other came small letter =
    let (k, p'') = inb 0x60 p' in
    let special = handle_special_keys-plain s k other small letter polls p'' in
    rw (came, special, keyboard_intl_getchar)
      (ap (λ c. some (c, s, p'')) (key_char-letter s k other small letter))
