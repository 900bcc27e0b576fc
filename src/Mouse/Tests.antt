-- ===== src/Mouse/Tests.antt =====
-- Two packets with a stray byte between them.
use minimalist_os.Base.{refl, List, [], ◌∷◌, pos, ℕ, arith, replicate}
use minimalist_os.Mouse.{Mouse}
use minimalist_os.Mouse.Packets.{
  Framed, end, stray, packet, Ready, take_bytes, step_pointers, take_bytes-Shows,
}
use minimalist_os.Mouse.Pointer.{Pointer, Shows}
use minimalist_os.Vga.{Vga}

abbrev blank_screen : Vga
blank_screen = record {
  vga = replicate 2000 0;
  cursor_x = 0;
  cursor_y = 0;
  current_color = 7;
  cursor_start = 0;
  cursor_end = 15;
  hardware_pos = 0;
}

abbrev at_origin : Mouse
at_origin = record {
  packet = 0 ∷ 0 ∷ 0 ∷ [];
  packet_index = 0;
  mouse_x = pos 0;
  mouse_y = pos 0;
  mouse_buttons = 0;
}

abbrev pointer_at_origin : Pointer
pointer_at_origin = record { x = 0; y = 0; buttons = 0; cells = replicate 2000 0 }

-- Five to the right and two down (254 is -2), with the left button; then one to the left.
abbrev moves : List ℕ
moves = 9 ∷ 5 ∷ 254 ∷ 0 ∷ 8 ∷ 255 ∷ 0 ∷ []

abbrev packets_sent : List (ℕ × ℕ × ℕ)
packets_sent = (9, 5, 254) ∷ (8, 255, 0) ∷ []

moves-Framed : Framed moves packets_sent
moves-Framed =
    packet (λ e. absurd (omega (arith, e))) (omega arith) (omega arith)
      (stray refl (packet (λ e. absurd (omega (arith, e))) (omega arith) (omega arith) end))

take_bytes-Shows_example :
    let (m', s') = take_bytes moves at_origin blank_screen in
    Shows (step_pointers 7 packets_sent pointer_at_origin) m' s' × Ready m'
take_bytes-Shows_example =
    take_bytes-Shows pointer_at_origin at_origin blank_screen moves-Framed
      (record { index = refl; size = refl })
      (record {
        at_x = refl;
        at_y = refl;
        in_x = omega arith;
        in_y = omega arith;
        held = refl;
        drawn = refl;
      })
