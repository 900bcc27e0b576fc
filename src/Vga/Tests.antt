-- ===== src/Vga/Tests.antt =====
-- A screen whose cursor stands behind the last column, and one with the cursor in the last row.
use minimalist_os.Base.{ℕ, List, [], ◌∷◌, ◌++◌, replicate, length-replicate, arith}
use minimalist_os.Vga.{Vga, vga_print}
use minimalist_os.Vga.Cursor.{IsValid, vga_print-IsValid}
use minimalist_os.Vga.Print.{next, end, Printed, vga_print-Printed}

abbrev row_end : Vga
row_end = record {
  vga = replicate 2000 0x720;
  cursor_x = 80;
  cursor_y = 3;
  current_color = 7;
  cursor_start = 0;
  cursor_end = 15;
  hardware_pos = 320;
}

row_end-IsValid : IsValid row_end
row_end-IsValid = record {
  size = length-replicate {A = ℕ} 2000 0x720;
  column = omega arith;
  row = omega arith;
  shown = omega arith;
}

abbrev last_row : Vga
last_row = record row_end { cursor_x = 70; cursor_y = 24; hardware_pos = 1990 }

last_row-IsValid : IsValid last_row
last_row-IsValid = record {
  size = length-replicate {A = ℕ} 2000 0x720;
  column = omega arith;
  row = omega arith;
  shown = omega arith;
}

vga_print-IsValid_example : IsValid (vga_print (b'a' ∷ 10 ∷ 9 ∷ 8 ∷ 0 ∷ []) last_row)
vga_print-IsValid_example = vga_print-IsValid (b'a' ∷ 10 ∷ 9 ∷ 8 ∷ 0 ∷ []) last_row last_row-IsValid

abbrev hi : List ℕ
hi = b'h' ∷ b'i' ∷ []

vga_print-Printed_example : Printed last_row hi (vga_print (hi ++ (0 ∷ [])) last_row)
vga_print-Printed_example =
    vga_print-Printed hi [] last_row last_row-IsValid
      (next (omega arith) (omega arith) (next (omega arith) (omega arith) end)) (omega arith)
