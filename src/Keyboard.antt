-- ===== src/Keyboard.antt =====
-- drivers/keyboard.c: the interrupt handler that turns scancodes into characters, and the circular
-- buffer between it and the readers.
pub mod Queue
mod Tests
use Prim.Native.Nat.{bit_and}
use minimalist_os.Base.{
  ℕ, ◌+◌, ◌-◌, ◌%◌, List, [], ◌∷◌, Bool, true, false, not, ◌&&◌, ◌||◌, Option, none, some, ltb, leb,
  ◌==◌, if◌then◌else◌, set, get_or, length,
}

abbrev pub scancode_to_ascii_us : List ℕ
scancode_to_ascii_us =
    0 ∷ 0 ∷ b'&' ∷ b'e' ∷ b'"' ∷ 39 ∷ b'(' ∷ b'-' ∷ b'e' ∷ b'_' ∷ b'c' ∷ b'a' ∷ b')' ∷ b'=' ∷ 8 ∷ 9
    ∷ b'a' ∷ b'z' ∷ b'e' ∷ b'r' ∷ b't' ∷ b'y' ∷ b'u' ∷ b'i' ∷ b'o' ∷ b'p' ∷ b'^' ∷ b'$' ∷ 10 ∷ 0
    ∷ b'q' ∷ b's' ∷ b'd' ∷ b'f' ∷ b'g' ∷ b'h' ∷ b'j' ∷ b'k' ∷ b'l' ∷ b'm' ∷ b'u' ∷ b'*' ∷ 0 ∷ b'<'
    ∷ b'w' ∷ b'x' ∷ b'c' ∷ b'v' ∷ b'b' ∷ b'n' ∷ b',' ∷ b';' ∷ b':' ∷ b'!' ∷ 0 ∷ b'*' ∷ 0 ∷ b' ' ∷ []

-- The two characters between the quotes of entry 26 are one number, of which a `char` keeps the
-- second.
abbrev pub scancode_to_ascii_us_shift : List ℕ
scancode_to_ascii_us_shift =
    0 ∷ 0 ∷ b'1' ∷ b'2' ∷ b'3' ∷ b'4' ∷ b'5' ∷ b'6' ∷ b'7' ∷ b'8' ∷ b'9' ∷ b'0' ∷ b'o' ∷ b'+' ∷ 8
    ∷ 9 ∷ b'A' ∷ b'Z' ∷ b'E' ∷ b'R' ∷ b'T' ∷ b'Y' ∷ b'U' ∷ b'I' ∷ b'O' ∷ b'P' ∷ b'.' ∷ b'$' ∷ 10 ∷ 0
    ∷ b'Q' ∷ b'S' ∷ b'D' ∷ b'F' ∷ b'G' ∷ b'H' ∷ b'J' ∷ b'K' ∷ b'L' ∷ b'M' ∷ b'%' ∷ b'u' ∷ 0 ∷ b'>'
    ∷ b'W' ∷ b'X' ∷ b'C' ∷ b'V' ∷ b'B' ∷ b'N' ∷ b'?' ∷ b'.' ∷ b'/' ∷ b'!' ∷ 0 ∷ b'*' ∷ 0 ∷ b' ' ∷ []

abbrev pub kb_buffer_size : ℕ
kb_buffer_size = 256

pub record Modifiers : Type 0 where
  pub shift_pressed : Bool
  pub ctrl_pressed : Bool
  pub alt_pressed : Bool
  pub caps_lock : Bool
  pub num_lock : Bool
  pub scroll_lock : Bool

pub record Keyboard : Type 0 where
  pub keys : Modifiers
  pub kb_buffer : List ℕ
  pub kb_write_ptr : ℕ
  pub kb_read_ptr : ℕ

-- The handler puts a character into the buffer, or drops it when the buffer is full.
unfoldable pub put_char : ℕ → Keyboard → Keyboard
put_char c s =
    let next_write = (s.kb_write_ptr + 1) % kb_buffer_size in
    if next_write == s.kb_read_ptr
    then s
    else record s { kb_buffer = set s.kb_buffer s.kb_write_ptr c; kb_write_ptr = next_write }

-- The `switch` on the modifier keys; none is for a scancode without a case.
unfoldable pub press_modifier : ℕ → Modifiers → Option Modifiers
press_modifier scancode k =
    if scancode == 0x2A || scancode == 0x36
    then some (record k { shift_pressed = true })
    else if scancode == 0xAA || scancode == 0xB6
    then some (record k { shift_pressed = false })
    else if scancode == 0x1D
    then some (record k { ctrl_pressed = true })
    else if scancode == 0x9D
    then some (record k { ctrl_pressed = false })
    else if scancode == 0x38
    then some (record k { alt_pressed = true })
    else if scancode == 0xB8
    then some (record k { alt_pressed = false })
    else if scancode == 0x3A
    then some (record k { caps_lock = not k.caps_lock })
    else if scancode == 0x45
    then some (record k { num_lock = not k.num_lock })
    else if scancode == 0x46
    then some (record k { scroll_lock = not k.scroll_lock })
    else none

-- `base_char` after the two tests on caps lock.
unfoldable pub apply_caps_lock : Bool → ℕ → ℕ
apply_caps_lock caps c =
    if caps && leb b'a' c && leb c b'z'
    then c - 32
    else if caps && leb b'A' c && leb c b'Z'
    then c + 32
    else c

unfoldable pub base_char : Modifiers → ℕ → ℕ
base_char k scancode = apply_caps_lock k.caps_lock (
    get_or (if k.shift_pressed then scancode_to_ascii_us_shift else scancode_to_ascii_us) scancode
      0)

-- What follows the `switch`.
unfoldable pub press_key : ℕ → Keyboard → Keyboard
press_key scancode s =
    let c = base_char s.keys scancode in
    if bit_and scancode 0x80 == 0
    then if ltb scancode (length scancode_to_ascii_us)
      then if c == 0 then s else put_char c s
      else s
    else s

-- `scancode` is the byte read from the data port.
unfoldable pub keyboard_handler : ℕ → Keyboard → Keyboard
keyboard_handler scancode s =
    if scancode == 0x0E then put_char 8 s else elim (press_modifier scancode s.keys) [
      | none ↦ press_key scancode s
      | some k ↦ record s { keys = k }
    ]

unfoldable pub keyboard_getchar : Keyboard → ℕ × Keyboard
keyboard_getchar s = if s.kb_read_ptr == s.kb_write_ptr then (0, s) else (
  get_or s.kb_buffer s.kb_read_ptr 0,
  record s { kb_read_ptr = (s.kb_read_ptr + 1) % kb_buffer_size },
)

-- A flag that is stored through a pointer, unless the pointer is null.
unfoldable pub store_flag : Option Bool → Bool → Option Bool
store_flag none flag = none
store_flag (some _) flag = some flag

unfoldable pub keyboard_get_status :
    Option Bool
    → Option Bool
    → Option Bool
    → Option Bool
    → Option Bool
    → Option Bool
    → Keyboard
    → Option Bool × Option Bool × Option Bool × Option Bool × Option Bool × Option Bool
keyboard_get_status shift ctrl alt caps num scroll s = (
  store_flag shift s.keys.shift_pressed,
  store_flag ctrl s.keys.ctrl_pressed,
  store_flag alt s.keys.alt_pressed,
  store_flag caps s.keys.caps_lock,
  store_flag num s.keys.num_lock,
  store_flag scroll s.keys.scroll_lock,
)
