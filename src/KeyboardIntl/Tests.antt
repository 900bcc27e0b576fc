-- ===== src/KeyboardIntl/Tests.antt =====
-- A letter that comes in at the second look, and keys of the German layout.
use minimalist_os.Base.{ℕ, ◌≡◌, refl, [], some, ◌==◌, if◌then◌else◌, get_or, arith}
use minimalist_os.KeyboardIntl.Letters.{is_letter, letter_case, keyboard_intl_getchar-letter}
use minimalist_os.KeyboardIntl.{
  KeyboardState, layout, keyboard_intl_available, character_map, apply_caps_lock, key_char,
  wait_key, keyboard_intl_getchar,
}
use minimalist_os.Ports.{Ports, inb}

abbrev in_layout : ℕ → ℕ → KeyboardState
in_layout n caps = record {
  current_layout = n;
  shift_pressed = 0;
  ctrl_pressed = 0;
  alt_pressed = 0;
  altgr_pressed = 0;
  caps_lock = caps;
  num_lock = 0;
  scroll_lock = 0;
}

-- The status is 0 at the first look and 1 at the next; the scancode is 16.
abbrev one_key : Ports
one_key = record { answers = λ port n. if port == 0x60 then 16 else n; accesses = 0; written = [] }

abbrev after_wait : Ports
after_wait = record one_key { accesses = 2 }

waited : wait_key 5 one_key ≡ some after_wait
unfolding wait_key keyboard_intl_available inb
waited = refl

keyboard_intl_getchar-letter_example :
    let s = in_layout 2 1 in
    let (k, p'') = inb 0x60 after_wait in
    keyboard_intl_getchar 5 s one_key
    ≡ some (letter_case 0 1 (get_or (layout 2).scancode_to_ascii k 0), s, p'')
unfolding inb is_letter layout
keyboard_intl_getchar-letter_example =
    keyboard_intl_getchar-letter 5 (in_layout 2 1) one_key after_wait
      (λ e. absurd (omega (arith, e))) waited (omega arith) refl

-- In the German layout the key of the letter q gives w, and left Ctrl gives an a.
german_q : key_char 16 (in_layout 1 0) ≡ b'w'
unfolding key_char character_map layout apply_caps_lock
german_q = refl

german_ctrl : key_char 0x1D (in_layout 1 0) ≡ b'a'
unfolding key_char character_map layout apply_caps_lock
german_ctrl = refl

-- With shift its table is one place further off: left Shift itself gives a Y.
german_shift : key_char 0x2A (record (in_layout 1 0) { shift_pressed = 1 }) ≡ b'Y'
unfolding key_char character_map layout apply_caps_lock
german_shift = refl
