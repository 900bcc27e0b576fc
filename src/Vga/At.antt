-- ===== src/Vga/At.antt =====
-- `vga_print_at` with one character.
use minimalist_os.Base.{
  ℕ, ◌+◌, ◌*◌, ◌≤◌, ◌<◌, ◌≡◌, refl, ap, ◌∙◌, [], ◌∷◌, false, leb, ◌==◌, set, arith,
}
use minimalist_os.Vga.Print.{put_case-printable, keep_below-inside}
use minimalist_os.Vga.{
  put_case, keep_below, Vga, vga_width, vga_height, vga_entry, vga_update_cursor, in_bounds,
  vga_putchar, vga_print, vga_print_at,
}

-- The screen with a character in one cell, and its cursor shown again.
abbrev pub drawn_at : ℕ → ℕ → ℕ → Vga → Vga
drawn_at c x y s =
    vga_update_cursor
      (record s { vga = set s.vga (y * vga_width + x) (vga_entry c s.current_color) })

module _ (c x y : ℕ) (s : Vga) where
  moved : Vga
  moved = record s { cursor_x = x; cursor_y = y }

  in_bounds-moved : x < vga_width → y < vga_height → in_bounds moved ≡ moved
  unfolding in_bounds moved
  in_bounds-moved in_x in_y =
      let column : leb vga_width x ≡ false = ground arith in
      let row : leb vga_height y ≡ false = ground arith in rw (column, row) refl

  -- A character at a place of the screen leaves the cursor and the color as they were.
  pub vga_print_at-one :
      32 ≤ c
      → c < 128
      → x < vga_width
      → y < vga_height
      → vga_print_at (c ∷ 0 ∷ []) x y s ≡ drawn_at c x y s
  unfolding vga_print_at vga_print vga_putchar moved vga_update_cursor
  vga_print_at-one lo hi in_x in_y =
      let some_char : (c == 0) ≡ false = ground arith in
      let put = record moved {
        vga = set s.vga (y * vga_width + x) (vga_entry c s.current_color);
        cursor_x = x + 1;
      } in
      let printed : vga_putchar c moved ≡ vga_update_cursor put = ap vga_update_cursor (
        ap keep_below
          (ap (put_case c) (in_bounds-moved in_x in_y) ∙ put_case-printable c moved lo hi in_x)
        ∙ keep_below-inside put in_y) in
      let back : Vga → Vga =
        λ q. vga_update_cursor (record q { cursor_x = s.cursor_x; cursor_y = s.cursor_y }) in
      rw some_char (ap back printed)
