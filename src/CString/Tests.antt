-- ===== src/CString/Tests.antt =====
-- Tests of the string routines, and the theorems at short strings.
use minimalist_os.Base.{
  arith, negsuc, ◌&&◌, true, replicate, get_or, ℕ, ◌≡◌, refl, List, [], ◌∷◌, pos, negsuc,
}
use minimalist_os.CString.Itoa.{
  itoa, magnitude, is_minus, digits_start, digit_char, write_digits, swap_ends, put_sign,
}
use minimalist_os.CString.Itoa.Reads.{read_number, read_number-itoa}
use minimalist_os.CString.{text, strcmp, strncmp}

abbrev ab : List ℕ
ab = b'a' ∷ b'b' ∷ 0 ∷ b'x' ∷ []

abbrev abc : List ℕ
abc = b'a' ∷ b'b' ∷ b'c' ∷ 0 ∷ []

compare_shorter : strcmp ab abc ≡ negsuc 98
unfolding strcmp
compare_shorter = refl

compare_prefix : strncmp ab abc 2 ≡ pos 0
unfolding strncmp
compare_prefix = refl

abbrev scratch : List ℕ
scratch = replicate 34 9

-- -305 in base 10.
read_number-itoa_example :
    (read_number 33 10 (itoa (negsuc 304) scratch 10) (digits_start (negsuc 304) 10) 0
      ≡ magnitude (negsuc 304))
    × ((is_minus (negsuc 304) && true) ≡ true → get_or (itoa (negsuc 304) scratch 10) 0 0 ≡ b'-')
unfolding magnitude
read_number-itoa_example =
    read_number-itoa (negsuc 304) scratch 10 (omega arith) (omega arith) (omega arith) (omega arith)

-- The sign is lost in base 16: this is -1, and also 1.
minus_one : text (itoa (negsuc 0) (replicate 9 7) 16) ≡ b'1' ∷ []
unfolding text itoa magnitude is_minus digit_char write_digits swap_ends digits_start put_sign
minus_one = refl
