-- ===== src/Vga.antt =====
-- drivers/vga.c: the text screen, 25 rows of 80 cells, and its cursor. The ports of the display are
-- the fields `cursor_start`, `cursor_end` and `hardware_pos`.
pub mod Scroll
pub mod Cursor
pub mod Print
pub mod At
mod Tests
use Prim.Native.Nat.{bit_and, bit_or}
use minimalist_os.Base.{
  ℕ, zero, suc, ◌+◌, ◌-◌, ◌*◌, ◌%◌, ◌^◌, List, [], ◌∷◌, Bool, true, false, ◌&&◌, ◌||◌, ℤ, pos,
  negsuc, ltb, leb, ◌==◌, if◌then◌else◌, set, get_or,
}

abbrev pub vga_width : ℕ
vga_width = 80

abbrev pub vga_height : ℕ
vga_height = 25

pub record Vga : Type 0 where
  pub vga : List ℕ
  pub cursor_x : ℕ
  pub cursor_y : ℕ
  pub current_color : ℕ
  pub cursor_start : ℕ
  pub cursor_end : ℕ
  pub hardware_pos : ℕ

unfoldable pub vga_get_cursor_y : Vga → ℕ
vga_get_cursor_y s = s.cursor_y

-- The two bytes that go to the ports.
unfoldable pub vga_update_cursor : Vga → Vga
vga_update_cursor s = record s { hardware_pos = (s.cursor_y * vga_width + s.cursor_x) % 2 ^ 16 }

-- A cell: the character below, its color above.
unfoldable pub vga_entry : ℕ → ℕ → ℕ
vga_entry c color = bit_or c (color * 256 % 2 ^ 16)

unfoldable pub vga_putchar_at : ℕ → ℕ → ℕ → ℕ → Vga → Vga
vga_putchar_at c color x y s = record s { vga = set s.vga (y * vga_width + x) (vga_entry c color) }

unfoldable pub vga_enable_cursor : ℕ → ℕ → Vga → Vga
vga_enable_cursor first last s = record s {
  cursor_start = bit_and first 0x1F;
  cursor_end = bit_and last 0x1F;
}

unfoldable pub vga_set_color : ℕ → ℕ → Vga → Vga
vga_set_color fg bg s = record s { current_color = bit_or (bg * 16) (bit_and fg 0x0F) % 256 }

-- `n` blanks from column `x` on.
unfoldable pub blank_row : ℕ → ℕ → ℕ → Vga → Vga
blank_row zero x y s = s
blank_row (suc n) x y s = blank_row n (x + 1) y (vga_putchar_at b' ' s.current_color x y s)

-- `n` blank rows from row `y` on.
unfoldable pub blank_rows : ℕ → ℕ → Vga → Vga
blank_rows zero y s = s
blank_rows (suc n) y s = blank_rows n (y + 1) (blank_row vga_width 0 y s)

unfoldable pub vga_clear : Vga → Vga
vga_clear s = vga_update_cursor (record (blank_rows vga_height 0 s) { cursor_x = 0; cursor_y = 0 })

unfoldable pub vga_init : Vga → Vga
vga_init s = vga_update_cursor (vga_clear (vga_set_color 7 0 (vga_enable_cursor 0 15 s)))

-- The inner loop of `vga_scroll`: `n` cells of row `y`, from column `x` on, are taken from the row
-- below.
unfoldable pub shift_row : ℕ → ℕ → ℕ → List ℕ → List ℕ
shift_row zero x y vga = vga
shift_row (suc n) x y vga =
    shift_row n (x + 1) y (set vga (y * vga_width + x) (get_or vga ((y + 1) * vga_width + x) 0))

unfoldable pub shift_rows : ℕ → ℕ → List ℕ → List ℕ
shift_rows zero y vga = vga
shift_rows (suc n) y vga = shift_rows n (y + 1) (shift_row vga_width 0 y vga)

unfoldable pub vga_scroll : Vga → Vga
vga_scroll s =
    blank_row vga_width 0 (vga_height - 1) (record s { vga = shift_rows (vga_height - 1) 0 s.vga })

-- The first lines of `vga_putchar`.
unfoldable pub in_bounds : Vga → Vga
in_bounds s = record s {
  cursor_x = if leb vga_width s.cursor_x then 0 else s.cursor_x;
  cursor_y = if leb vga_height s.cursor_y then vga_height - 1 else s.cursor_y;
}

-- One column back, from the first one to the end of the row above.
unfoldable pub step_back : Vga → Vga
step_back s =
    if ltb 0 s.cursor_x
    then record s { cursor_x = s.cursor_x - 1 }
    else if ltb 0 s.cursor_y
    then record s { cursor_y = s.cursor_y - 1; cursor_x = vga_width - 1 }
    else s

unfoldable pub wrap_line : Vga → Vga
wrap_line s =
    if leb vga_width s.cursor_x then record s { cursor_x = 0; cursor_y = s.cursor_y + 1 } else s

-- Writes at the cursor.
unfoldable pub put_here : ℕ → Vga → Vga
put_here c s = vga_putchar_at c s.current_color s.cursor_x s.cursor_y s

-- The cases on the character: a `char` from 128 on is negative, so it is not printed.
unfoldable pub put_case : ℕ → Vga → Vga
put_case c s =
    if c == 10 || c == 13
    then record s { cursor_x = 0; cursor_y = s.cursor_y + 1 }
    else if c == 8
    then put_here b' ' (step_back s)
    else if c == 9
    then record s { cursor_x = (s.cursor_x + 8) - (s.cursor_x + 8) % 8 }
    else if leb b' ' c && ltb c 128
    then (let t = put_here c (wrap_line s) in record t { cursor_x = t.cursor_x + 1 })
    else s

-- The last lines of `vga_putchar`.
unfoldable pub keep_below : Vga → Vga
keep_below s =
    if leb vga_height s.cursor_y then record (vga_scroll s) { cursor_y = vga_height - 1 } else s

unfoldable pub vga_putchar : ℕ → Vga → Vga
vga_putchar c s = vga_update_cursor (keep_below (put_case c (in_bounds s)))

unfoldable pub vga_print : List ℕ → Vga → Vga
vga_print [] s = s
vga_print (c ∷ str) s = if c == 0 then s else vga_print str (vga_putchar c s)

-- At a place whose coordinates are not negative.
unfoldable pub vga_print_at : List ℕ → ℕ → ℕ → Vga → Vga
vga_print_at str x y s =
    vga_update_cursor (record (vga_print str (record s { cursor_x = x; cursor_y = y })) {
      cursor_x = s.cursor_x;
      cursor_y = s.cursor_y;
    })

unfoldable pub vga_set_cursor : ℤ → ℤ → Vga → Vga
vga_set_cursor (negsuc x) y s = s
vga_set_cursor (pos x) (negsuc y) s = s
vga_set_cursor (pos x) (pos y) s =
    if ltb x vga_width && ltb y vga_height
    then vga_update_cursor (record s { cursor_x = x; cursor_y = y })
    else s
