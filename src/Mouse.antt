-- ===== src/Mouse.antt =====
-- drivers/mouse.c: the mouse, which sends packets of three bytes, and its pointer on the screen.
pub mod Pointer
pub mod Packets
mod Tests
use Prim.Native.Nat.{bit_and, bit_or}
use minimalist_os.Base.{
  ℕ, zero, suc, ◌+◌, ◌-◌, List, [], ◌∷◌, Bool, true, false, ◌&&◌, ◌||◌, some, ℤ, pos, negsuc, ◌+ℤ◌,
  ◌-ℤ◌, int8, positive_part, negative_part, ltb, leb, ◌==◌, if◌then◌else◌, set, get_or,
}
use minimalist_os.Interrupts.{Interrupts, register_interrupt_handler, enable_irq}
use minimalist_os.Ports.{Ports, outb, inb}
use minimalist_os.Vga.{Vga, vga_width, vga_height, vga_print_at}

pub record Mouse : Type 0 where
  pub packet : List ℕ
  pub packet_index : ℕ
  pub mouse_x : ℤ
  pub mouse_y : ℤ
  pub mouse_buttons : ℕ

-- The first loop of `mouse_wait`: until bit 1 of the status is off, for at most `timeout` rounds.
unfoldable pub wait_write : ℕ → Ports → Ports
wait_write zero p = p
wait_write (suc timeout) p =
    let (status, p') = inb 0x64 p in
    elim (bit_and status 0x02 == 0) [ true ↦ p' | false ↦ wait_write timeout p' ]

-- The second loop: until bit 0 of the status is on.
unfoldable pub wait_read : ℕ → Ports → Ports
wait_read zero p = p
wait_read (suc timeout) p =
    let (status, p') = inb 0x64 p in
    elim (bit_and status 0x01 == 0) [ true ↦ wait_read timeout p' | false ↦ p' ]

unfoldable pub mouse_wait : ℕ → Ports → Ports
mouse_wait type p = if type == 0 then wait_write 100000 p else wait_read 100000 p

unfoldable pub mouse_write : ℕ → Ports → Ports
mouse_write byte p = outb 0x60 byte (mouse_wait 0 (outb 0x64 0xD4 (mouse_wait 0 p)))

unfoldable pub mouse_read : Ports → ℕ × Ports
mouse_read p = inb 0x60 (mouse_wait 1 p)

-- A coordinate that is kept on the screen.
unfoldable pub clamp : ℕ → ℤ → ℤ
clamp size (negsuc n) = pos 0
clamp size (pos n) = if leb size n then pos (size - 1) else pos n

unfoldable pub draw_cursor : Mouse → Vga → Mouse × Vga
draw_cursor m s =
    let m' = record m {
      mouse_x = clamp vga_width m.mouse_x;
      mouse_y = clamp vga_height m.mouse_y;
    } in
    (m', vga_print_at (b'X' ∷ 0 ∷ []) (positive_part m'.mouse_x) (positive_part m'.mouse_y) s)

unfoldable pub off_screen : ℕ → ℤ → Bool
off_screen size (negsuc n) = true
off_screen size (pos n) = leb size n

unfoldable pub clear_cursor : Mouse → Vga → Vga
clear_cursor m s =
    if off_screen vga_width m.mouse_x || off_screen vga_height m.mouse_y
    then s
    else vga_print_at (b' ' ∷ 0 ∷ []) (positive_part m.mouse_x) (positive_part m.mouse_y) s

-- The end of the handler, with a whole packet.
unfoldable pub move_pointer : Mouse → Vga → Mouse × Vga
move_pointer m s =
    draw_cursor
      (record m {
        packet_index = 0;
        mouse_x = m.mouse_x +ℤ int8 (get_or m.packet 1 0);
        mouse_y = m.mouse_y -ℤ int8 (get_or m.packet 2 0);
        mouse_buttons = bit_and (get_or m.packet 0 0) 0x07;
      })
      (clear_cursor m s)

-- The handler once it has read `byte`.
unfoldable pub take_byte : ℕ → Mouse → Vga → Mouse × Vga
take_byte byte m s =
    let m' = record m {
      packet = set m.packet m.packet_index byte;
      packet_index = m.packet_index + 1;
    } in
    if (m.packet_index == 0) && (bit_and byte 0x08 == 0)
    then (m, s)
    else if ltb m'.packet_index 3
    then (m', s)
    else move_pointer m' s

unfoldable pub mouse_irq_handler : Ports → Mouse → Vga → Ports × (Mouse × Vga)
mouse_irq_handler p m s =
    let (status, p') = inb 0x64 p in
    let (byte, p'') = inb 0x60 p' in
    if bit_and status 0x20 == 0 then (p', (m, s)) else (p'', take_byte byte m s)

-- The commands up to the command byte of the controller, with the interrupt of the mouse on.
unfoldable pub enable_auxiliary : Ports → Ports
enable_auxiliary p =
    let (status, p') =
      inb 0x60 (mouse_wait 1 (outb 0x64 0x20 (mouse_wait 0 (outb 0x64 0xA8 (mouse_wait 0 p))))) in
    outb 0x60 (bit_or status 0x02) (mouse_wait 0 (outb 0x64 0x60 (mouse_wait 0 p')))

-- The set-up, without the two messages that it prints. `handler` is `mouse_irq_handler`.
unfoldable pub mouse_init {ℓ} :
    {A : Type ℓ} → A → Interrupts A → Ports → Mouse → Interrupts A × Ports × Mouse
mouse_init handler i p m = (
  register_interrupt_handler 44 (some handler) i,
  enable_irq 12
      ((mouse_read (mouse_write 0xF4 ((mouse_read (mouse_write 0xF6 (enable_auxiliary p))).1))).1),
  record m { packet_index = 0; mouse_x = pos 0; mouse_y = pos 0; mouse_buttons = 0 },
)

unfoldable pub mouse_get_x : Mouse → ℤ
mouse_get_x m = m.mouse_x

unfoldable pub mouse_get_y : Mouse → ℤ
mouse_get_y m = m.mouse_y

unfoldable pub mouse_get_buttons : Mouse → ℕ
mouse_get_buttons m = m.mouse_buttons
