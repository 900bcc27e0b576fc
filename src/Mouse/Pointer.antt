-- ===== src/Mouse/Pointer.antt =====
-- Where the pointer goes, on coordinates that are on the screen, and what a packet does to it.
use Prim.Native.Nat.{bit_and}
use minimalist_os.Base.{
  ℕ, ◌+◌, ◌-◌, ◌*◌, ◌<◌, ◌≡◌, refl, ap, ◌∙◌, List, [], ◌∷◌, false, pos, ◌+ℤ◌, ◌-ℤ◌, int8, ltb, leb,
  if◌then◌else◌, min, set, get_or, arith,
}
use minimalist_os.Mouse.{Mouse, clamp, off_screen, draw_cursor, clear_cursor, move_pointer}
use minimalist_os.Vga.At.{vga_print_at-one, drawn_at}
use minimalist_os.Vga.{Vga, vga_width, vga_height, vga_entry, vga_update_cursor}

pub record Pointer : Type 0 where
  pub x : ℕ
  pub y : ℕ
  pub buttons : ℕ
  pub cells : List ℕ

-- To the right by a signed byte, and up by one, not over the edges.
pub right : ℕ → ℕ → ℕ
right x b = if ltb b 128 then min (x + b) 79 else x - (256 - b)

pub up : ℕ → ℕ → ℕ
up y b = if ltb b 128 then y - b else min (y + (256 - b)) 24

-- A packet takes the cross from its old place and puts it in the new one, in the current color.
pub step_pointer : ℕ → ℕ × ℕ × ℕ → Pointer → Pointer
step_pointer color (b0, b1, b2) p =
    let x' = right p.x b1 in
    let y' = up p.y b2 in
    record {
      x = x';
      y = y';
      buttons = bit_and b0 7;
      cells =
          set (set p.cells (p.y * 80 + p.x) (vga_entry b' ' color)) (y' * 80 + x')
            (vga_entry b'X' color);
    }

-- The mouse and the screen show a pointer.
pub record Shows (p : Pointer) (m : Mouse) (s : Vga) : Type 0 where
  pub at_x : m.mouse_x ≡ pos p.x
  pub at_y : m.mouse_y ≡ pos p.y
  pub in_x : p.x < vga_width
  pub in_y : p.y < vga_height
  pub held : m.mouse_buttons ≡ p.buttons
  pub drawn : s.vga ≡ p.cells

right-lt : (x b : ℕ) → x < 80 → b < 256 → right x b < 80
unfolding right
right-lt x b h small = ground arith

up-lt : (y b : ℕ) → y < 25 → b < 256 → up y b < 25
unfolding up
up-lt y b h small = ground arith

clamp-right : (x b : ℕ) → x < 80 → b < 256 → clamp 80 (pos x +ℤ int8 b) ≡ pos (right x b)
unfolding right clamp
clamp-right x b h small = ground arith

clamp-up : (y b : ℕ) → y < 25 → b < 256 → clamp 25 (pos y -ℤ int8 b) ≡ pos (up y b)
unfolding up clamp
clamp-up y b h small = ground arith

clear_cursor-Shows :
    (p : Pointer) (m : Mouse) (s : Vga) → Shows p m s → clear_cursor m s ≡ drawn_at b' ' p.x p.y s
unfolding clear_cursor off_screen
clear_cursor-Shows p m s h =
    let column : leb vga_width p.x ≡ false = ground (arith, h.in_x) in
    let row : leb vga_height p.y ≡ false = ground (arith, h.in_y) in
    rw (h.at_x, h.at_y, column, row)
      (vga_print_at-one b' ' p.x p.y s (omega arith) (omega arith) h.in_x h.in_y)

-- A whole packet moves the pointer and redraws it.
pub move_pointer-Shows :
    (p : Pointer) (m : Mouse) (s : Vga) (b0 b1 b2 : ℕ)
    → Shows p m s
    → m.packet ≡ b0 ∷ b1 ∷ b2 ∷ []
    → b1 < 256
    → b2 < 256
    → let (m', s') = move_pointer m s in
      Shows (step_pointer s.current_color (b0, b1, b2) p) m' s'
      × (s'.current_color ≡ s.current_color)
      × (m'.packet_index ≡ 0)
      × (m'.packet ≡ m.packet)
unfolding move_pointer draw_cursor step_pointer vga_update_cursor
move_pointer-Shows p m s b0 b1 b2 h full small1 small2 =
    let x' = right p.x b1 in
    let y' = up p.y b2 in
    let in_x' = right-lt p.x b1 h.in_x small1 in
    let in_y' = up-lt p.y b2 h.in_y small2 in
    let to_x : clamp vga_width (m.mouse_x +ℤ int8 (get_or m.packet 1 0)) ≡ pos x' =
      rw (full, h.at_x) (clamp-right p.x b1 h.in_x small1) in
    let to_y : clamp vga_height (m.mouse_y -ℤ int8 (get_or m.packet 2 0)) ≡ pos y' =
      rw (full, h.at_y) (clamp-up p.y b2 h.in_y small2) in
    let screen = drawn_at b'X' x' y' (drawn_at b' ' p.x p.y s) in
    let drawn : (move_pointer m s).1 ≡ screen =
      rw (to_x, to_y)
        (vga_print_at-one b'X' x' y' (clear_cursor m s) (omega arith) (omega arith) in_x' in_y'
          ∙ ap (drawn_at b'X' x' y') (clear_cursor-Shows p m s h)) in
    (
      record {
        at_x = to_x;
        at_y = to_y;
        in_x = in_x';
        in_y = in_y';
        held = ap (λ t. bit_and (get_or t 0 0) 7) full;
        drawn =
            ap (λ t. t.vga) drawn
            ∙ ap
                (λ cells.
                  set (set cells (p.y * 80 + p.x) (vga_entry b' ' s.current_color)) (y' * 80 + x')
                    (vga_entry b'X' s.current_color))
                h.drawn;
      },
      ap (λ t. t.current_color) drawn,
      refl,
      refl,
    )
