-- ===== src/Vga/Cursor.antt =====
-- The cursor, on the screen and in the display's registers.
use minimalist_os.Base.{
  ℕ, ◌+◌, ◌*◌, ◌≤◌, ◌<◌, ◌≡◌, inl, inr, refl, ap, ◌∙◌, List, [], ◌∷◌, false, ◌&&◌, ◌||◌, ltb, leb,
  ◌==◌, length, length-set, arith, Bool-cases,
}
use minimalist_os.Vga.{
  Vga, vga_width, vga_height, vga_entry, vga_putchar_at, vga_scroll, vga_update_cursor, in_bounds,
  step_back, wrap_line, put_here, put_case, keep_below, vga_putchar, vga_print,
}
use minimalist_os.Vga.Scroll.{screen_size, vga_scroll-Scrolled}

-- After a character in the last column the cursor stands behind it, in column 80.
pub record IsValid (s : Vga) : Type 0 where
  pub size : length s.vga ≡ screen_size
  pub column : s.cursor_x ≤ vga_width
  pub row : s.cursor_y < vga_height
  pub shown : s.hardware_pos ≡ s.cursor_y * vga_width + s.cursor_x

-- Between the steps of `vga_putchar`: the row may be one too far.
record Placed (s : Vga) : Type 0 where
  size : length s.vga ≡ screen_size
  column : s.cursor_x ≤ vga_width
  row : s.cursor_y ≤ vga_height

vga_update_cursor-IsValid :
    (s : Vga)
    → length s.vga ≡ screen_size
    → s.cursor_x ≤ vga_width
    → s.cursor_y < vga_height
    → IsValid (vga_update_cursor s)
unfolding vga_update_cursor
vga_update_cursor-IsValid s size column row = record {
  size = size;
  column = column;
  row = row;
  shown = omega arith;
}

put_here-Placed : (c : ℕ) (s : Vga) → Placed s → Placed (put_here c s)
unfolding put_here vga_putchar_at
put_here-Placed c s p = record {
  size =
      length-set s.vga (s.cursor_y * vga_width + s.cursor_x) (vga_entry c s.current_color) ∙ p.size;
  column = p.column;
  row = p.row;
}

step_back-Placed : (s : Vga) → Placed s → Placed (step_back s)
unfolding step_back
step_back-Placed s p = elim (Bool-cases (ltb 0 s.cursor_x)) [
  | inl right ↦ rw right (record { size = p.size; column = omega (arith, p.column); row = p.row })
  | inr left ↦ elim (Bool-cases (ltb 0 s.cursor_y)) [
    | inl below ↦
        rw (left, below)
          (record { size = p.size; column = omega arith; row = omega (arith, p.row) })
    | inr top ↦ rw (left, top) p
  ]
]

-- A character that starts on the screen leaves the cursor at most one row below it.
put_case-Placed :
    (c : ℕ) (s : Vga)
    → length s.vga ≡ screen_size
    → s.cursor_x < vga_width
    → s.cursor_y < vga_height
    → Placed (put_case c s)
unfolding put_case wrap_line put_here vga_putchar_at
put_case-Placed c s size column row =
    let p : Placed s = record { size = size; column = omega arith; row = omega arith } in
    let inside : leb vga_width s.cursor_x ≡ false = ground arith in
    elim (Bool-cases (c == 10 || c == 13)) [
      | inl line ↦ rw line (record { size = size; column = omega arith; row = omega arith })
      | inr a ↦ elim (Bool-cases (c == 8)) [
        | inl back ↦ rw (a, back) (put_here-Placed b' ' (step_back s) (step_back-Placed s p))
        | inr b ↦ elim (Bool-cases (c == 9)) [
          | inl tab ↦
              rw (a, b, tab) (record { size = size; column = omega arith; row = omega arith })
          | inr d ↦ elim (Bool-cases (leb b' ' c && ltb c 128)) [
            | inr silent ↦ rw (a, b, d, silent) p
            | inl printed ↦
                rw (a, b, d, printed, inside)
                  (record {
                    size = (put_here-Placed c s p).size;
                    column = omega arith;
                    row = omega arith;
                  })
          ]
        ]
      ]
    ]

in_bounds-inside :
    (s : Vga)
    → let s' = in_bounds s in
      (s'.cursor_x < vga_width) × (s'.cursor_y < vga_height) × (s'.vga ≡ s.vga)
unfolding in_bounds
in_bounds-inside s = (ground arith, ground arith, refl)

keep_below-IsValid : (s : Vga) → Placed s → IsValid (vga_update_cursor (keep_below s))
unfolding keep_below
keep_below-IsValid s p = elim (Bool-cases (leb vga_height s.cursor_y)) [
  | inl below ↦
      let scrolled = vga_scroll-Scrolled s p.size in
      rw below (
        vga_update_cursor-IsValid (record (vga_scroll s) { cursor_y = 24 }) scrolled.size
          (omega (arith, p.column, ap (λ t. t.cursor_x) scrolled.rest)) (omega arith))
  | inr inside ↦ rw inside (vga_update_cursor-IsValid s p.size p.column (ground arith))
]

pub vga_putchar-IsValid : (c : ℕ) (s : Vga) → length s.vga ≡ screen_size → IsValid (vga_putchar c s)
unfolding vga_putchar
vga_putchar-IsValid c s size =
    let (column, row, same) = in_bounds-inside s in
    keep_below-IsValid (put_case c (in_bounds s))
      (put_case-Placed c (in_bounds s) (ap length same ∙ size) column row)

-- Printing any string, control characters included, from a valid state ends in a valid one: the
-- cursor is in one of the 25 rows and at most behind the last column, the display shows it there,
-- and the screen keeps its size.
pub vga_print-IsValid : (str : List ℕ) (s : Vga) → IsValid s → IsValid (vga_print str s)
unfolding vga_print
vga_print-IsValid [] s v = v
vga_print-IsValid (c ∷ str) s v = elim (Bool-cases (c == 0)) [
  | inl end ↦ rw end v
  | inr char ↦ rw char (vga_print-IsValid str (vga_putchar c s) (vga_putchar-IsValid c s v.size))
]
