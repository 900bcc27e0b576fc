-- ===== src/Log/Format.antt =====
-- A formatted message in its buffer, and on the screen.
use minimalist_os.Base.{
  ℕ, zero, suc, ◌-◌, ◌≤◌, ◌<◌, ◌≡◌, ◌∙◌, List, [], ◌∷◌, false, some, ◌==◌, ltb, arith, length,
  length-append, length-take, length-set, get_or, get_or-set_self, take, inl, inr, Bool-cases,
}
use minimalist_os.Base.Copy.{copy_at, length-copy_at}
use minimalist_os.Vga.{Vga, vga_set_color}
use minimalist_os.Vga.Cursor
use minimalist_os.Vga.Cursor.{vga_print-IsValid}
use minimalist_os.Log.{
  Log, Arg, convert, format_loop, vsnprintf, buffer_content, print_log_prefix, log_vprintf,
}

-- The loop writes no more than there is room for.
format_loop-le : (p : List ℕ) (args : List Arg) (room : ℕ) → length (format_loop p args room) ≤ room
unfolding format_loop
format_loop-le p args zero = omega arith
format_loop-le [] args (suc room) = omega arith
format_loop-le (c ∷ []) args (suc room) = ground arith
format_loop-le (c ∷ f ∷ p) args (suc room) = elim (Bool-cases (c == b'%')) [
  | inr plain ↦ elim (Bool-cases (c == 0)) [
    | inl end ↦ rw (plain, format_loop) (rw end (omega arith))
    | inr char ↦ rw (plain, format_loop) (rw char (omega (arith, format_loop-le (f ∷ p) args room)))
  ]
  | inl special ↦ elim (Bool-cases (f == 0)) [
    | inl end ↦ rw (special, format_loop) (rw end (omega arith))
    | inr char ↦
        let (s, rest) = convert f args in
        let w = take (suc room) s in
        rw (special, format_loop)
          (rw char (
            omega (
              arith,
              length-append w (format_loop p rest (suc room - length w)),
              length-take (suc room) s,
              format_loop-le p rest (suc room - length w),
            )))
  ]
]

-- In a buffer of at least `size` bytes, `size` positive, formatting writes fewer than `size`
-- characters, whatever the format and the arguments; it returns their number, puts the terminator
-- behind them, and the buffer keeps its length.
pub vsnprintf_lem :
    (buf : List ℕ) (size : ℕ) (format : List ℕ) (args : List Arg)
    → 0 < size
    → size ≤ length buf
    → let (n, out) = vsnprintf (some buf) size format args in
      (n < size)
      × (get_or (buffer_content out) n 0 ≡ 0)
      × (length (buffer_content out) ≡ length buf)
unfolding vsnprintf buffer_content
vsnprintf_lem buf size format args some_room room =
    let s = format_loop format args (size - 1) in
    let few = format_loop-le format args (size - 1) in
    let sized : (size == 0) ≡ false = ground arith in
    let block = copy_at buf 0 s (length s) in
    let same = length-copy_at buf 0 s (length s) in
    rw sized (
      omega (arith, few),
      get_or-set_self block (length s) 0 0 (omega (arith, few, same)),
      length-set block (length s) 0 ∙ same,
    )

print_log_prefix-IsValid :
    (level : ℕ) (s : Vga) → Cursor.IsValid s → Cursor.IsValid (print_log_prefix level s)
unfolding print_log_prefix vga_set_color
print_log_prefix-IsValid level s v = elim (Bool-cases (ltb 4 level)) [
  | inl unknown ↦ rw unknown (vga_print-IsValid _ s v)
  | inr known ↦ rw known (
      vga_print-IsValid _ _
        (record { size = v.size; column = v.column; row = v.row; shown = v.shown }))
]

-- Logging a message of any level, format and arguments leaves the cursor on the screen where it was
-- there, with the display informed.
log_vprintf-IsValid :
    (raw : List ℕ) (level : ℕ) (format : List ℕ) (args : List Arg) (s : Log)
    → Cursor.IsValid s.screen
    → Cursor.IsValid (log_vprintf raw level format args s).screen
unfolding log_vprintf
log_vprintf-IsValid raw level format args s v = elim (Bool-cases (ltb level s.current_log_level)) [
  | inl quiet ↦ rw quiet v
  | inr loud ↦
      rw loud
        (vga_print-IsValid _ _ (vga_print-IsValid _ _ (print_log_prefix-IsValid level s.screen v)))
]
