-- ===== src/Keyboard/Tests.antt =====
-- Keys that are typed, and what the readers get.
use minimalist_os.Base.{◌≡◌, refl, List, [], ◌∷◌, false, replicate, arith}
use minimalist_os.Keyboard.{
  Keyboard, Modifiers, keyboard_handler, keyboard_getchar, put_char, press_modifier, press_key,
  base_char, apply_caps_lock,
}
use minimalist_os.Keyboard.Queue.{
  IsValid, contents, Event, scancode, getchar, run, run_queue, run-run_queue,
}

abbrev no_keys : Modifiers
no_keys = record {
  shift_pressed = false;
  ctrl_pressed = false;
  alt_pressed = false;
  caps_lock = false;
  num_lock = false;
  scroll_lock = false;
}

-- Two pointers at the end of the buffer, which is empty.
abbrev idle : Keyboard
idle = record { keys = no_keys; kb_buffer = replicate 256 0; kb_write_ptr = 255; kb_read_ptr = 255 }

idle-IsValid : IsValid idle
idle-IsValid = record { full = refl; write_in = omega arith; read_in = omega arith }

-- Shift, the key `a`, its release, the release of shift, the key again, and three reads.
abbrev events : List Event
events =
    scancode 0x2A
    ∷ scancode 0x10
    ∷ scancode 0x90
    ∷ scancode 0xAA
    ∷ scancode 0x10
    ∷ getchar
    ∷ getchar
    ∷ getchar
    ∷ []

typed_chars : (run events idle).0 ≡ b'A' ∷ b'a' ∷ 0 ∷ []
unfolding run keyboard_handler keyboard_getchar put_char press_modifier press_key base_char
    apply_caps_lock
typed_chars = refl

run-run_queue_example :
    let (out, s') = run events idle in
    IsValid s' × ((out, (s'.keys, contents s')) ≡ run_queue events no_keys (contents idle))
run-run_queue_example = run-run_queue events idle idle-IsValid
