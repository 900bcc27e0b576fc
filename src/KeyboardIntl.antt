-- ===== src/KeyboardIntl.antt =====
-- drivers/keyboard_intl.c: a keyboard with a choice of layouts, whose characters are read without
-- interrupts. A flag is a byte, as in the source.
pub mod Layouts
pub mod Letters
mod Tests
use Prim.Native.Nat.{bit_and, bit_or}
use minimalist_os.Base.{
  ℕ, zero, suc, ◌+◌, ◌-◌, List, [], ◌∷◌, true, false, not, ◌&&◌, ◌||◌, Option, none, some, ℤ, pos,
  negsuc, success, failure, ltb, leb, ◌==◌, if◌then◌else◌, get_or,
}
use minimalist_os.KeyboardIntl.Layouts.{Layout, no_layout, keyboard_layouts, num_layouts}
use minimalist_os.Ports.{Ports, outb, inb}

pub record KeyboardState : Type 0 where
  pub current_layout : ℕ
  pub shift_pressed : ℕ
  pub ctrl_pressed : ℕ
  pub alt_pressed : ℕ
  pub altgr_pressed : ℕ
  pub caps_lock : ℕ
  pub num_lock : ℕ
  pub scroll_lock : ℕ

-- The set-up, without its messages.
unfoldable pub keyboard_intl_init : Ports → ℤ × KeyboardState × Ports
keyboard_intl_init p = (
  success,
  record {
    current_layout = 0;
    shift_pressed = 0;
    ctrl_pressed = 0;
    alt_pressed = 0;
    altgr_pressed = 0;
    caps_lock = 0;
    num_lock = 0;
    scroll_lock = 0;
  },
  outb 0x60 0xF4 p,
)

unfoldable pub keyboard_intl_set_layout : ℤ → KeyboardState → ℤ × KeyboardState
keyboard_intl_set_layout (negsuc n) s = (failure, s)
keyboard_intl_set_layout (pos n) s =
    if leb num_layouts n then (failure, s) else (success, record s { current_layout = n })

unfoldable pub layout : ℕ → Layout
layout n = get_or keyboard_layouts n no_layout

unfoldable pub keyboard_intl_get_layout_name : KeyboardState → List ℕ
keyboard_intl_get_layout_name s = (layout s.current_layout).name

unfoldable pub keyboard_intl_get_layout_count : ℕ
keyboard_intl_get_layout_count = num_layouts

unfoldable pub keyboard_intl_get_layout_name_by_index : ℤ → Option (List ℕ)
keyboard_intl_get_layout_name_by_index (negsuc n) = none
keyboard_intl_get_layout_name_by_index (pos n) =
    if leb num_layouts n then none else some (layout n).name

unfoldable pub led_byte : KeyboardState → ℕ
led_byte s =
    bit_or (if s.scroll_lock == 0 then 0 else 0x01)
      (bit_or (if s.num_lock == 0 then 0 else 0x02) (if s.caps_lock == 0 then 0 else 0x04))

-- The loop of `keyboard_update_leds` has no bound in C: none after `polls` rounds.
unfoldable pub wait_accepted : ℕ → Ports → Option Ports
wait_accepted zero p = none
wait_accepted (suc polls) p =
    let (status, p') = inb 0x64 p in
    elim (bit_and status 0x02 == 0) [ true ↦ some p' | false ↦ wait_accepted polls p' ]

unfoldable pub keyboard_update_leds : ℕ → KeyboardState → Ports → Option Ports
keyboard_update_leds polls s p = elim (wait_accepted polls (outb 0x60 0xED p)) [
  | none ↦ none
  | some p' ↦ some (outb 0x60 (led_byte s) p')
]

-- A state with the LEDs updated to it.
unfoldable pub show_leds : ℕ → KeyboardState → Ports → Option (KeyboardState × Ports)
show_leds polls s p = elim (keyboard_update_leds polls s p) [ none ↦ none | some p' ↦ some (s, p') ]

-- The result of the two functions on special keys is 0 in every case.
unfoldable pub handle_extended_keys : KeyboardState → Ports → KeyboardState × Ports
handle_extended_keys s p =
    let (code, p') = inb 0x60 p in
    if code == 0x38
    then (record s { altgr_pressed = 1 }, p')
    else if code == 0xB8
    then (record s { altgr_pressed = 0 }, p')
    else (s, p')

abbrev pub negated : ℕ → ℕ
negated flag = if flag == 0 then 1 else 0

unfoldable pub handle_special_keys : ℕ → ℕ → KeyboardState → Ports → Option (KeyboardState × Ports)
handle_special_keys polls scancode s p =
    if scancode == 0x2A || scancode == 0x36
    then some (record s { shift_pressed = 1 }, p)
    else if scancode == 0xAA || scancode == 0xB6
    then some (record s { shift_pressed = 0 }, p)
    else if scancode == 0x1D
    then some (record s { ctrl_pressed = 1 }, p)
    else if scancode == 0x9D
    then some (record s { ctrl_pressed = 0 }, p)
    else if scancode == 0x38
    then some (record s { alt_pressed = 1 }, p)
    else if scancode == 0xB8
    then some (record s { alt_pressed = 0 }, p)
    else if scancode == 0xE0
    then some (handle_extended_keys s p)
    else if scancode == 0x3A
    then show_leds polls (record s { caps_lock = negated s.caps_lock }) p
    else if scancode == 0x45
    then show_leds polls (record s { num_lock = negated s.num_lock }) p
    else if scancode == 0x46
    then show_leds polls (record s { scroll_lock = negated s.scroll_lock }) p
    else some (s, p)

unfoldable pub apply_caps_lock : ℕ → ℕ → ℕ
apply_caps_lock caps c =
    if not (caps == 0) && leb b'a' c && leb c b'z'
    then c - 32
    else if not (caps == 0) && leb b'A' c && leb c b'Z'
    then c + 32
    else c

-- The tables that the layout gives for the keys that are held.
unfoldable pub character_map : KeyboardState → List ℕ
character_map s =
    let l = layout s.current_layout in
    let plain = if s.shift_pressed == 0 then l.scancode_to_ascii else l.scancode_to_ascii_shift in
    if s.altgr_pressed == 0
    then plain
    else elim l.scancode_to_ascii_altgr [ some table ↦ table | none ↦ plain ]

-- What `keyboard_intl_getchar` returns for a scancode, once the special keys are done.
unfoldable pub key_char : ℕ → KeyboardState → ℕ
key_char scancode s =
    if leb 128 scancode
    then 0
    else apply_caps_lock s.caps_lock (get_or (character_map s) scancode 0)

unfoldable pub keyboard_intl_available : Ports → ℕ × Ports
keyboard_intl_available p = let (status, p') = inb 0x64 p in (bit_and status 0x01, p')

unfoldable pub wait_key : ℕ → Ports → Option Ports
wait_key zero p = none
wait_key (suc polls) p =
    let (ready, p') = keyboard_intl_available p in
    elim (ready == 0) [ true ↦ wait_key polls p' | false ↦ some p' ]

-- None where one of the waits takes more than `polls` rounds.
unfoldable pub keyboard_intl_getchar :
    ℕ → KeyboardState → Ports → Option (ℕ × KeyboardState × Ports)
keyboard_intl_getchar polls s p = elim (wait_key polls p) [
  | none ↦ none
  | some p' ↦
      let (scancode, p'') = inb 0x60 p' in
      elim (handle_special_keys polls scancode s p'') [
        | none ↦ none
        | some (s', p''') ↦ some (key_char scancode s', s', p''')
      ]
]

-- What is stored through the pointer, unless it is null.
unfoldable pub keyboard_intl_get_state : Option KeyboardState → KeyboardState → Option KeyboardState
keyboard_intl_get_state none s = none
keyboard_intl_get_state (some _) s = some s

unfoldable pub keyboard_intl_set_leds :
    ℕ → ℕ → ℕ → ℕ → KeyboardState → Ports → Option (KeyboardState × Ports)
keyboard_intl_set_leds polls caps num scroll s p =
    show_leds polls (record s { caps_lock = caps; num_lock = num; scroll_lock = scroll }) p
