-- ===== src/Vga/Scroll.antt =====
-- The loops over the cells: what scrolling and clearing leave in each place of the screen.
use native.Mathlib.Decide.{dec_lt}
use mathlib.Core.Path.{subst}
use minimalist_os.Base.{
  ℕ, zero, suc, ◌+◌, ◌*◌, ◌≤◌, ◌<◌, ◌≡◌, ◌≢◌, ◌⊎◌, inl, inr, refl, sym, ap, ◌∙◌, List, set, get_or,
  get_or-set_self, get_or-set_ne, length, length-set, arith,
}
use minimalist_os.Vga.{
  Vga, vga_width, vga_height, vga_entry, vga_putchar_at, blank_row, blank_rows, shift_row,
  shift_rows, vga_scroll, vga_clear, vga_update_cursor,
}

-- `n` cells from place `i` on are taken from a row further; or they are all set to `e`.
shift : ℕ → ℕ → List ℕ → List ℕ
shift zero i vga = vga
shift (suc n) i vga = shift n (i + 1) (set vga i (get_or vga (i + 80) 0))

fill_cells : ℕ → ℕ → ℕ → List ℕ → List ℕ
fill_cells zero i e vga = vga
fill_cells (suc n) i e vga = fill_cells n (i + 1) e (set vga i e)

-- Each nested pair of loops runs through its places one by one.
shift-add : (n m i : ℕ) (vga : List ℕ) → shift (n + m) i vga ≡ shift m (i + n) (shift n i vga)
unfolding shift
shift-add zero m i vga =
    ap (λ k. shift k i vga) {x = zero + m} {y = m} (omega arith)
    ∙ ap (λ j. shift m j vga) {x = i} {y = i + zero} (omega arith)
shift-add (suc n) m i vga =
    ap (λ k. shift k i vga) {x = suc n + m} {y = suc (n + m)} (omega arith)
    ∙ shift-add n m (i + 1) (set vga i (get_or vga (i + 80) 0))
    ∙ ap (λ j. shift m j (shift n (i + 1) (set vga i (get_or vga (i + 80) 0)))) (omega arith)

fill_cells-add :
    (n m i e : ℕ) (vga : List ℕ)
    → fill_cells (n + m) i e vga ≡ fill_cells m (i + n) e (fill_cells n i e vga)
unfolding fill_cells
fill_cells-add zero m i e vga =
    ap (λ k. fill_cells k i e vga) {x = zero + m} {y = m} (omega arith)
    ∙ ap (λ j. fill_cells m j e vga) {x = i} {y = i + zero} (omega arith)
fill_cells-add (suc n) m i e vga =
    ap (λ k. fill_cells k i e vga) {x = suc n + m} {y = suc (n + m)} (omega arith)
    ∙ fill_cells-add n m (i + 1) e (set vga i e)
    ∙ ap (λ j. fill_cells m j e (fill_cells n (i + 1) e (set vga i e))) (omega arith)

shift_row-shift : (n x y : ℕ) (vga : List ℕ) → shift_row n x y vga ≡ shift n (y * vga_width + x) vga
unfolding shift_row shift
shift_row-shift zero x y vga = refl
shift_row-shift (suc n) x y vga =
    shift_row-shift n (x + 1) y
      (set vga (y * vga_width + x) (get_or vga ((y + 1) * vga_width + x) 0))
    ∙ ap (λ j. shift n j (set vga (y * vga_width + x) (get_or vga ((y + 1) * vga_width + x) 0)))
        (omega arith)
    ∙ ap (λ j. shift n (y * vga_width + x + 1) (set vga (y * vga_width + x) (get_or vga j 0)))
        (omega arith)

shift_rows-shift :
    (n y : ℕ) (vga : List ℕ) → shift_rows n y vga ≡ shift (n * vga_width) (y * vga_width) vga
unfolding shift_rows shift
shift_rows-shift zero y vga = refl
shift_rows-shift (suc n) y vga =
    shift_rows-shift n (y + 1) (shift_row vga_width 0 y vga)
    ∙ ap (λ t. shift (n * vga_width) ((y + 1) * vga_width) t) (shift_row-shift vga_width 0 y vga)
    ∙ ap (λ j. shift (n * vga_width) ((y + 1) * vga_width) (shift vga_width j vga)) (omega arith)
    ∙ ap (λ j. shift (n * vga_width) j (shift vga_width (y * vga_width) vga)) (omega arith)
    ∙ sym (shift-add vga_width (n * vga_width) (y * vga_width) vga)
    ∙ ap (λ k. shift k (y * vga_width) vga) {x = vga_width + n * vga_width} {y = suc n * vga_width}
        (omega arith)

blank_row-fill_cells :
    (n x y : ℕ) (s : Vga)
    → blank_row n x y s
      ≡ record s { vga = fill_cells n (y * vga_width + x) (vga_entry b' ' s.current_color) s.vga }
unfolding blank_row fill_cells vga_putchar_at
blank_row-fill_cells zero x y s = refl
blank_row-fill_cells (suc n) x y s =
    let e = vga_entry b' ' s.current_color in
    blank_row-fill_cells n (x + 1) y (vga_putchar_at b' ' s.current_color x y s)
    ∙ ap (λ j. record s { vga = fill_cells n j e (set s.vga (y * vga_width + x) e) }) (omega arith)

blank_rows-fill_cells :
    (n y : ℕ) (s : Vga)
    → blank_rows n y s ≡ record s {
      vga = fill_cells (n * vga_width) (y * vga_width) (vga_entry b' ' s.current_color) s.vga;
    }
unfolding blank_rows fill_cells
blank_rows-fill_cells zero y s = refl
blank_rows-fill_cells (suc n) y s =
    let e = vga_entry b' ' s.current_color in
    let row = fill_cells vga_width (y * vga_width) e s.vga in
    ap (blank_rows n (y + 1)) (
      blank_row-fill_cells vga_width 0 y s
      ∙ ap (λ j. record s { vga = fill_cells vga_width j e s.vga }) {y = y * vga_width}
          (omega arith))
    ∙ blank_rows-fill_cells n (y + 1) (record s { vga = row })
    ∙ ap (λ j. record s { vga = fill_cells (n * vga_width) j e row })
        {y = y * vga_width + vga_width} (omega arith)
    ∙ ap (λ t. record s { vga = t })
        (sym (fill_cells-add vga_width (n * vga_width) (y * vga_width) e s.vga))
    ∙ ap (λ k. record s { vga = fill_cells k (y * vga_width) e s.vga })
        {x = vga_width + n * vga_width} {y = suc n * vga_width} (omega arith)

length-shift : (n i : ℕ) (vga : List ℕ) → length (shift n i vga) ≡ length vga
unfolding shift
length-shift zero i vga = refl
length-shift (suc n) i vga =
    length-shift n (i + 1) (set vga i (get_or vga (i + 80) 0))
    ∙ length-set vga i (get_or vga (i + 80) 0)

length-fill_cells : (n i e : ℕ) (vga : List ℕ) → length (fill_cells n i e vga) ≡ length vga
unfolding fill_cells
length-fill_cells zero i e vga = refl
length-fill_cells (suc n) i e vga = length-fill_cells n (i + 1) e (set vga i e) ∙ length-set vga i e

get_or-shift_out :
    (n i j : ℕ) (vga : List ℕ) → (j < i) ⊎ (i + n ≤ j) → get_or (shift n i vga) j 0 ≡ get_or vga j 0
unfolding shift
get_or-shift_out zero i j vga out = refl
get_or-shift_out (suc n) i j vga out =
    get_or-shift_out n (i + 1) j (set vga i (get_or vga (i + 80) 0)) (later out)
    ∙ get_or-set_ne vga i j (get_or vga (i + 80) 0) 0 (apart out)
  where
    later : (j < i) ⊎ (i + suc n ≤ j) → (j < i + 1) ⊎ (i + 1 + n ≤ j)
    later (inl p) = inl (omega arith)
    later (inr p) = inr (omega arith)

    apart : (j < i) ⊎ (i + suc n ≤ j) → i ≢ j
    apart (inl p) = omega arith
    apart (inr p) = omega arith

get_or-shift_in :
    (n i j : ℕ) (vga : List ℕ)
    → i ≤ j
    → j < i + n
    → i + n ≤ length vga
    → get_or (shift n i vga) j 0 ≡ get_or vga (j + 80) 0
unfolding shift
get_or-shift_in zero i j vga lo hi room = absurd (omega arith)
get_or-shift_in (suc n) i j vga lo hi room =
    let v = get_or vga (i + 80) 0 in
    elim (dec_lt i j) [
      | yes later ↦
          get_or-shift_in n (i + 1) j (set vga i v) (omega arith) (omega arith)
            (omega (arith, length-set vga i v))
          ∙ get_or-set_ne vga i (j + 80) v 0 (omega arith)
      | no here ↦
          let same : i ≡ j = omega arith in
          get_or-shift_out n (i + 1) j (set vga i v) (inl (omega arith))
          ∙ ap (λ t. get_or (set vga i v) t 0) (sym same)
          ∙ get_or-set_self vga i v 0 (omega arith)
          ∙ ap (λ t. get_or vga (t + 80) 0) same
    ]

get_or-fill_out :
    (n i e j : ℕ) (vga : List ℕ) → j < i → get_or (fill_cells n i e vga) j 0 ≡ get_or vga j 0
unfolding fill_cells
get_or-fill_out zero i e j vga out = refl
get_or-fill_out (suc n) i e j vga out =
    get_or-fill_out n (i + 1) e j (set vga i e) (omega arith)
    ∙ get_or-set_ne vga i j e 0 (omega arith)

get_or-fill_in :
    (n i e j : ℕ) (vga : List ℕ)
    → i ≤ j
    → j < i + n
    → i + n ≤ length vga
    → get_or (fill_cells n i e vga) j 0 ≡ e
unfolding fill_cells
get_or-fill_in zero i e j vga lo hi room = absurd (omega arith)
get_or-fill_in (suc n) i e j vga lo hi room = elim (dec_lt i j) [
  | yes later ↦
      get_or-fill_in n (i + 1) e j (set vga i e) (omega arith) (omega arith)
        (omega (arith, length-set vga i e))
  | no here ↦
      let same : i ≡ j = omega arith in
      get_or-fill_out n (i + 1) e j (set vga i e) (omega arith)
      ∙ ap (λ t. get_or (set vga i e) t 0) (sym same)
      ∙ get_or-set_self vga i e 0 (omega arith)
]

-- The cell in row `y` and column `x`.
abbrev pub cell : Vga → ℕ → ℕ → ℕ
cell s y x = get_or s.vga (y * vga_width + x) 0

abbrev pub screen_size : ℕ
screen_size = 2000

-- Each row has moved up by one, the last one is blank in the current color, and nothing else has
-- changed.
pub record Scrolled (s s' : Vga) : Type 0 where
  pub rows : (y x : ℕ) → y < 24 → x < vga_width → cell s' y x ≡ cell s (y + 1) x
  pub last : (x : ℕ) → x < vga_width → cell s' 24 x ≡ vga_entry b' ' s.current_color
  pub size : length s'.vga ≡ screen_size
  pub rest : s' ≡ record s { vga = s'.vga }

vga_scroll-fill_cells :
    (s : Vga)
    → vga_scroll s ≡ record s {
      vga = fill_cells vga_width 1920 (vga_entry b' ' s.current_color) (shift 1920 0 s.vga);
    }
unfolding vga_scroll
vga_scroll-fill_cells s =
    blank_row-fill_cells vga_width 0 24 (record s { vga = shift_rows 24 0 s.vga })
    ∙ ap (λ t. record s { vga = fill_cells vga_width 1920 (vga_entry b' ' s.current_color) t })
        (shift_rows-shift 24 0 s.vga)

-- Scrolling moves each row of the screen up by one and leaves the last one blank; the cursor and the
-- color stay.
pub vga_scroll-Scrolled : (s : Vga) → length s.vga ≡ screen_size → Scrolled s (vga_scroll s)
vga_scroll-Scrolled s size =
    let e = vga_entry b' ' s.current_color in
    let up = shift 1920 0 s.vga in
    subst (Scrolled s) (sym (vga_scroll-fill_cells s)) (record {
      rows = λ y x hy hx.
          (get_or-fill_out vga_width 1920 e (y * vga_width + x) up (omega arith)
            ∙ get_or-shift_in 1920 0 (y * vga_width + x) s.vga (omega arith) (omega arith)
                (omega (arith, size))
            ∙ ap (λ j. get_or s.vga j 0) (omega arith));
      last = λ x hx.
          (get_or-fill_in vga_width 1920 e (24 * vga_width + x) up (omega arith) (omega arith)
            (omega (arith, size, length-shift 1920 0 s.vga)));
      size = length-fill_cells vga_width 1920 e up ∙ length-shift 1920 0 s.vga ∙ size;
      rest = refl;
    })

-- Clearing leaves every cell of the screen blank in the current color, and the cursor, which the
-- display is told, in the first one.
vga_clear_lem :
    (s : Vga)
    → length s.vga ≡ screen_size
    → let s' = vga_clear s in
      ((y x : ℕ) → y < vga_height → x < vga_width → cell s' y x ≡ vga_entry b' ' s.current_color)
      × (s' ≡ record s { vga = s'.vga; cursor_x = 0; cursor_y = 0; hardware_pos = 0 })
unfolding vga_clear vga_update_cursor
vga_clear_lem s size =
    let e = vga_entry b' ' s.current_color in
    rw (blank_rows-fill_cells vga_height 0 s) (
      λ y x hy hx.
          get_or-fill_in 2000 0 e (y * vga_width + x) s.vga (omega arith) (omega arith)
            (omega (arith, size)),
      refl,
    )
