-- ===== src/Log.antt =====
-- kernel/log.c, kernel/log.h: the formatted messages of the kernel, which go to the screen.
pub mod Format
mod Tests
use Prim.Native.Nat.{bit_and}
use minimalist_os.Base.{
  ℕ, zero, suc, ◌+◌, ◌-◌, ◌%◌, ◌^◌, List, [], ◌∷◌, ◌++◌, Bool, true, false, ◌&&◌, ◌||◌, Option,
  none, some, ℤ, ltb, leb, ◌==◌, if◌then◌else◌, set, get_or, length, take, replicate,
}
use minimalist_os.Base.Copy.{copy_at}
use minimalist_os.CString.{text}
use minimalist_os.CString.Itoa.{itoa}
use minimalist_os.Vfs.{to_int}
use minimalist_os.Vga.{Vga, vga_init, vga_clear, vga_print, vga_set_color}

-- The colors of the levels from debug (0) to critical (4).
abbrev pub log_colors : List ℕ
log_colors = 7 ∷ 2 ∷ 6 ∷ 12 ∷ 15 ∷ []

pub record Log : Type 0 where
  pub current_log_level : ℕ
  pub screen : Vga

unfoldable pub log_set_level : ℕ → Log → Log
log_set_level level s = record s { current_log_level = level }

-- A string of seven or eight characters in brackets.
abbrev pub prefix_text : ℕ → List ℕ
prefix_text level =
    if level == 0
    then b'[' ∷ b'D' ∷ b'E' ∷ b'B' ∷ b'U' ∷ b'G' ∷ b']' ∷ 32 ∷ 0 ∷ []
    else if level == 1
    then b'[' ∷ b'I' ∷ b'N' ∷ b'F' ∷ b'O' ∷ b']' ∷ 32 ∷ 32 ∷ 0 ∷ []
    else if level == 2
    then b'[' ∷ b'W' ∷ b'A' ∷ b'R' ∷ b'N' ∷ b']' ∷ 32 ∷ 32 ∷ 0 ∷ []
    else if level == 3
    then b'[' ∷ b'E' ∷ b'R' ∷ b'R' ∷ b'O' ∷ b'R' ∷ b']' ∷ 32 ∷ 0 ∷ []
    else if level == 4
    then b'[' ∷ b'C' ∷ b'R' ∷ b'I' ∷ b'T' ∷ b']' ∷ 32 ∷ 32 ∷ 0 ∷ []
    else b'[' ∷ b'L' ∷ b'O' ∷ b'G' ∷ b']' ∷ 32 ∷ 32 ∷ 32 ∷ 0 ∷ []

-- An unknown level leaves the color; the critical one has a red (4) ground.
unfoldable pub print_log_prefix : ℕ → Vga → Vga
print_log_prefix level s = vga_print (prefix_text level) (
    if ltb 4 level
    then s
    else vga_set_color (get_or log_colors level 0) (if level == 4 then 4 else 0) s)

-- An argument: its 32 bits, and what they point to.
pub record Arg : Type 0 where
  pub word : ℕ
  pub pointee : Option (List ℕ)

-- `va_arg`; what a missing argument would read is 0.
unfoldable pub va_arg : List Arg → Arg × List Arg
va_arg [] = (record { word = 0; pointee = none }, [])
va_arg (a ∷ args) = (a, args)

-- "(null)"
abbrev pub null_text : List ℕ
null_text = b'(' ∷ b'n' ∷ b'u' ∷ b'l' ∷ b'l' ∷ b')' ∷ []

unfoldable pub upper : List ℕ → List ℕ
upper [] = []
upper (c ∷ s) = (if leb b'a' c && leb c b'f' then (c - b'a') + b'A' else c) ∷ upper s

-- What a local buffer for the digits holds.
unfoldable pub digits_of : ℕ → ℕ → ℕ → List ℕ
digits_of word size base = text (itoa (to_int word) (replicate size 0) base)

unfoldable pub pointed : Option (List ℕ) → List ℕ
pointed none = null_text
pointed (some s) = text s

-- The `switch` on the character behind `%`: the text that is written as far as there is room, and
-- the arguments that are left.
unfoldable pub convert : ℕ → List Arg → List ℕ × List Arg
convert f args =
    let (a, rest) = va_arg args in
    if f == b'd' || f == b'u'
    then (digits_of a.word 12 10, rest)
    else if f == b'x'
    then (digits_of a.word 9 16, rest)
    else if f == b'X'
    then (upper (digits_of a.word 9 16), rest)
    else if f == b's'
    then (pointed a.pointee, rest)
    else if f == b'c'
    then (a.word % 2 ^ 8 ∷ [], rest)
    else if f == b'%'
    then (b'%' ∷ [], args)
    else (b'%' ∷ f ∷ [], args)

-- The loop over the format: what is written to the buffer while `room` more characters fit.
unfoldable pub format_loop : List ℕ → List Arg → ℕ → List ℕ
format_loop p args zero = []
format_loop [] args (suc room) = []
format_loop (c ∷ []) args (suc room) = if c == 0 || c == b'%' then [] else c ∷ []
format_loop (c ∷ f ∷ p) args (suc room) = elim (c == b'%') [
  | false ↦ if c == 0 then [] else c ∷ format_loop (f ∷ p) args room
  | true ↦
      let (s, rest) = convert f args in
      let written = take (suc room) s in
      if f == 0 then [] else written ++ format_loop p rest (suc room - length written)
]

-- Returns the number of characters and the buffer.
unfoldable pub vsnprintf : Option (List ℕ) → ℕ → List ℕ → List Arg → ℕ × Option (List ℕ)
vsnprintf none size format args = (0, none)
vsnprintf (some buf) size format args =
    let s = format_loop format args (size - 1) in
    if size == 0
    then (0, some buf)
    else (length s, some (set (copy_at buf 0 s (length s)) (length s) 0))

-- The content of a buffer that is there.
unfoldable pub buffer_content : Option (List ℕ) → List ℕ
buffer_content none = []
buffer_content (some buf) = buf

-- `raw` is what the local buffer of 256 bytes holds.
unfoldable pub log_vprintf : List ℕ → ℕ → List ℕ → List Arg → Log → Log
log_vprintf raw level format args s =
    let buffer = buffer_content (vsnprintf (some raw) 256 format args).1 in
    let line = vga_print buffer (print_log_prefix level s.screen) in
    if ltb level s.current_log_level then s else record s { screen = vga_print (10 ∷ 0 ∷ []) line }

unfoldable pub log_printf : List ℕ → ℕ → List ℕ → List Arg → Log → Log
log_printf raw level format args s = log_vprintf raw level format args s

unfoldable pub log_debug : List ℕ → List ℕ → List Arg → Log → Log
log_debug raw format args s = log_vprintf raw 0 format args s

unfoldable pub log_info : List ℕ → List ℕ → List Arg → Log → Log
log_info raw format args s = log_vprintf raw 1 format args s

unfoldable pub log_warn : List ℕ → List ℕ → List Arg → Log → Log
log_warn raw format args s = log_vprintf raw 2 format args s

unfoldable pub log_error : List ℕ → List ℕ → List Arg → Log → Log
log_error raw format args s = log_vprintf raw 3 format args s

unfoldable pub log_critical : List ℕ → List ℕ → List Arg → Log → Log
log_critical raw format args s = log_vprintf raw 4 format args s

-- "Kernel logging system initialized"
abbrev pub started : List ℕ
started =
    b'K' ∷ b'e' ∷ b'r' ∷ b'n' ∷ b'e' ∷ b'l' ∷ 32 ∷ b'l' ∷ b'o' ∷ b'g' ∷ b'g' ∷ b'i' ∷ b'n' ∷ b'g'
    ∷ 32 ∷ b's' ∷ b'y' ∷ b's' ∷ b't' ∷ b'e' ∷ b'm' ∷ 32 ∷ b'i' ∷ b'n' ∷ b'i' ∷ b't' ∷ b'i' ∷ b'a'
    ∷ b'l' ∷ b'i' ∷ b'z' ∷ b'e' ∷ b'd' ∷ 0 ∷ []

unfoldable pub log_init : List ℕ → Log → Log
log_init raw s = log_info raw started [] (record s { screen = vga_clear (vga_init s.screen) })
