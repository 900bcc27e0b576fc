-- ===== src/Vga/Print.antt =====
-- What printing writes: a character, a line of text, and a backspace.
use mathlib.Core.Path.{subst}
use minimalist_os.Base.{
  ℕ, zero, suc, ◌+◌, ◌*◌, ◌≤◌, ◌<◌, ◌≡◌, ◌⊎◌, inl, inr, refl, sym, ap, ◌∙◌, List, [], ◌∷◌, ◌++◌,
  true, false, ◌&&◌, ◌||◌, ltb, leb, ◌==◌, if◌then◌else◌, set, get_or, get_or-set_self,
  get_or-set_ne, length, length-set, arith,
}
use minimalist_os.Vga.{
  Vga, vga_width, vga_height, vga_entry, vga_putchar_at, vga_update_cursor, in_bounds, wrap_line,
  put_here, put_case, keep_below, vga_putchar, vga_print,
}
use minimalist_os.Vga.Scroll.{screen_size, cell}
use minimalist_os.Vga.Cursor.{IsValid}

-- The column that the next character goes to: behind the last one, the row starts again.
abbrev pub next_column : Vga → ℕ
next_column s = if s.cursor_x == vga_width then 0 else s.cursor_x

-- The state after a character that is written in column `k`.
abbrev pub put_in : ℕ → ℕ → Vga → Vga
put_in c k s = record s {
  vga = set s.vga (s.cursor_y * vga_width + k) (vga_entry c s.current_color);
  cursor_x = k + 1;
  hardware_pos = s.cursor_y * vga_width + k + 1;
}

in_bounds_lem : (s : Vga) → IsValid s → in_bounds s ≡ record s { cursor_x = next_column s }
unfolding in_bounds
in_bounds_lem s v =
    let row : leb vga_height s.cursor_y ≡ false = ground (arith, v.row) in
    let column : (if leb vga_width s.cursor_x then 0 else s.cursor_x) ≡ next_column s =
      ground (arith, v.column) in
    rw row (ap (λ k. record s { cursor_x = k }) column)

next_column-lt : (s : Vga) → IsValid s → next_column s < vga_width
next_column-lt s v = ground (arith, v.column)

pub put_case-printable :
    (c : ℕ) (s : Vga)
    → 32 ≤ c
    → c < 128
    → s.cursor_x < vga_width
    → put_case c s ≡ record s {
      vga = set s.vga (s.cursor_y * vga_width + s.cursor_x) (vga_entry c s.current_color);
      cursor_x = s.cursor_x + 1;
    }
unfolding put_case wrap_line put_here vga_putchar_at
put_case-printable c s lo hi column =
    let line : (c == 10 || c == 13) ≡ false = ground arith in
    let back : (c == 8) ≡ false = ground arith in
    let tab : (c == 9) ≡ false = ground arith in
    let printed : (leb b' ' c && ltb c 128) ≡ true = ground arith in
    let inside : leb vga_width s.cursor_x ≡ false = ground arith in
    rw (line, back, tab, printed, inside) refl

pub keep_below-inside : (s : Vga) → s.cursor_y < vga_height → keep_below s ≡ s
unfolding keep_below
keep_below-inside s row =
    let inside : leb vga_height s.cursor_y ≡ false = ground arith in rw inside refl

-- A printable character is written at the cursor, in the current color, and the cursor moves on by
-- one column. Behind the last column it is the first column of the same row that is written.
vga_putchar-printable :
    (c : ℕ) (s : Vga) → IsValid s → 32 ≤ c → c < 128 → vga_putchar c s ≡ put_in c (next_column s) s
unfolding vga_putchar vga_update_cursor
vga_putchar-printable c s v lo hi =
    let s1 : Vga = record s { cursor_x = next_column s } in
    let s2 : Vga = record s {
      vga = set s.vga (s.cursor_y * vga_width + next_column s) (vga_entry c s.current_color);
      cursor_x = next_column s + 1;
    } in
    ap (λ t. vga_update_cursor (keep_below (put_case c t))) (in_bounds_lem s v)
    ∙ ap (λ t. vga_update_cursor (keep_below t))
        (put_case-printable c s1 lo hi (next_column-lt s v))
    ∙ ap vga_update_cursor (keep_below-inside s2 v.row)
    ∙ ap (λ p. record s2 { hardware_pos = p }) (omega (arith, v.row, next_column-lt s v))

pub data Printable : List ℕ → Type 0 where
  end : Printable []
  next : {c : ℕ} {str : List ℕ} → 32 ≤ c → c < 128 → Printable str → Printable (c ∷ str)

-- The characters stand from the cursor on, in the current color; every other cell is as it was, and
-- the cursor stands behind them.
pub record Printed (s : Vga) (str : List ℕ) (s' : Vga) : Type 0 where
  pub written :
      (j : ℕ)
      → j < length str
      → cell s' s.cursor_y (s.cursor_x + j) ≡ vga_entry (get_or str j 0) s.current_color
  pub others :
      (i : ℕ)
      → (i < s.cursor_y * vga_width + s.cursor_x)
        ⊎ (s.cursor_y * vga_width + s.cursor_x + length str ≤ i)
      → get_or s'.vga i 0 ≡ get_or s.vga i 0
  pub column : s'.cursor_x ≡ s.cursor_x + length str
  pub row : s'.cursor_y ≡ s.cursor_y
  pub color : s'.current_color ≡ s.current_color

-- One character, with the place that the display is told, and the rest of the line.
Printed-cons :
    (c hardware : ℕ) (str : List ℕ) (s s' : Vga)
    → length s.vga ≡ screen_size
    → s.cursor_x < vga_width
    → s.cursor_y < vga_height
    → Printed
        (record s {
          vga = set s.vga (s.cursor_y * vga_width + s.cursor_x) (vga_entry c s.current_color);
          cursor_x = s.cursor_x + 1;
          hardware_pos = hardware;
        })
        str
        s'
    → Printed s (c ∷ str) s'
Printed-cons c hardware str s s' size column row p =
    let place : ℕ = s.cursor_y * vga_width + s.cursor_x in
    let e = vga_entry c s.current_color in
    record {
      written = λ j lt. written_at j lt;
      others = λ i out. elim out [
        | inl before ↦
            p.others i (inl (omega arith)) ∙ get_or-set_ne s.vga place i e 0 (omega arith)
        | inr after ↦ p.others i (inr (omega arith)) ∙ get_or-set_ne s.vga place i e 0 (omega arith)
      ];
      column = omega (arith, p.column);
      row = p.row;
      color = p.color;
    }
  where
    written_at :
        (j : ℕ)
        → j < suc (length str)
        → cell s' s.cursor_y (s.cursor_x + j) ≡ vga_entry (get_or (c ∷ str) j 0) s.current_color
    written_at zero lt =
        let place : ℕ = s.cursor_y * vga_width + s.cursor_x in
        ap (λ i. get_or s'.vga i 0) {y = place} (omega arith)
        ∙ p.others place (inl (omega arith))
        ∙ get_or-set_self s.vga place (vga_entry c s.current_color) 0 (omega (arith, size))
    written_at (suc j) lt =
        ap (λ k. cell s' s.cursor_y k) {y = s.cursor_x + 1 + j} (omega arith)
        ∙ p.written j (omega arith)

put_in-IsValid : (c : ℕ) (s : Vga) → IsValid s → IsValid (put_in c (next_column s) s)
put_in-IsValid c s v = record {
  size =
      length-set s.vga (s.cursor_y * vga_width + next_column s) (vga_entry c s.current_color)
      ∙ v.size;
  column = omega (arith, next_column-lt s v);
  row = v.row;
  shown = omega arith;
}

-- Printing a string of printable characters that fits the rest of the row writes them, from the
-- cursor on, and nothing else, and leaves the cursor behind them.
pub vga_print-Printed :
    (str rest : List ℕ) (s : Vga)
    → IsValid s
    → Printable str
    → s.cursor_x + length str ≤ vga_width
    → Printed s str (vga_print (str ++ (0 ∷ rest)) s)
unfolding vga_print
vga_print-Printed [] rest s v end fits = record {
  written = λ j lt. absurd (omega arith);
  others = λ i out. refl;
  column = omega arith;
  row = refl;
  color = refl;
}
vga_print-Printed (c ∷ str) rest s v (next lo hi more) fits =
    let char : (c == 0) ≡ false = ground arith in
    let here : next_column s ≡ s.cursor_x = ground arith in
    let w =
      vga_print-Printed str rest (put_in c (next_column s) s) (put_in-IsValid c s v) more
        (omega (arith, here)) in
    rw char (
      rw (vga_putchar-printable c s v lo hi) (
        subst (λ k. Printed s (c ∷ str) (vga_print (str ++ (0 ∷ rest)) (put_in c k s))) (sym here)
          (Printed-cons c (s.cursor_y * vga_width + s.cursor_x + 1) str s
            (vga_print (str ++ (0 ∷ rest)) (put_in c s.cursor_x s)) v.size (omega arith) v.row
            (subst (λ k. Printed (put_in c k s) str (vga_print (str ++ (0 ∷ rest)) (put_in c k s)))
              here w))))
