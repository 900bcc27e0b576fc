-- ===== src/Log/Tests.antt =====
-- A message with two numbers, cut to its buffer.
use minimalist_os.Base.{ℕ, ◌<◌, ◌≡◌, refl, List, [], ◌∷◌, some, none, get_or, length, arith}
use minimalist_os.CString.{text}
use minimalist_os.CString.Itoa.{
  itoa, magnitude, is_minus, digit_char, write_digits, swap_ends, digits_start, put_sign,
}
use minimalist_os.Vfs.{to_int}
use minimalist_os.Log.{Arg, va_arg, digits_of, convert, format_loop, vsnprintf, buffer_content}
use minimalist_os.Log.Format.{vsnprintf_lem}

-- "n=%d %x"
abbrev two_numbers : List ℕ
two_numbers = b'n' ∷ b'=' ∷ b'%' ∷ b'd' ∷ 32 ∷ b'%' ∷ b'x' ∷ 0 ∷ []

abbrev args : List Arg
args = record { word = 42; pointee = none } ∷ record { word = 255; pointee = none } ∷ []

formatted : format_loop two_numbers args 20 ≡ b'n' ∷ b'=' ∷ b'4' ∷ b'2' ∷ 32 ∷ b'f' ∷ b'f' ∷ []
unfolding format_loop convert va_arg digits_of to_int text itoa magnitude is_minus digit_char
    write_digits swap_ends digits_start put_sign
formatted = refl

shortened : format_loop two_numbers args 3 ≡ b'n' ∷ b'=' ∷ b'4' ∷ []
unfolding format_loop convert va_arg digits_of to_int text itoa magnitude is_minus digit_char
    write_digits swap_ends digits_start put_sign
shortened = refl

vsnprintf_lem_example :
    let (n, out) = vsnprintf (some (7 ∷ 7 ∷ 7 ∷ 7 ∷ 7 ∷ [])) 4 two_numbers args in
    (n < 4) × (get_or (buffer_content out) n 0 ≡ 0) × (length (buffer_content out) ≡ 5)
vsnprintf_lem_example =
    vsnprintf_lem (7 ∷ 7 ∷ 7 ∷ 7 ∷ 7 ∷ []) 4 two_numbers args (omega arith) (omega arith)
