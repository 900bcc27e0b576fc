-- ===== src/CString/Itoa.antt =====
-- `itoa` of kernel/string.c: numbers as text.
mod Digits
pub mod Reads
use minimalist_os.Base.{
  ℕ, zero, suc, ◌+◌, ◌-◌, ◌/◌, ◌%◌, List, Bool, true, false, ◌&&◌, ◌||◌, ℤ, pos, negsuc, ltb, ◌==◌,
  if◌then◌else◌, set, get_or,
}

-- The remainder by the base and the quotients have the sign of the value, which the code drops from
-- the digits: they are those of the value without its sign.
unfoldable pub magnitude : ℤ → ℕ
magnitude (pos n) = n
magnitude (negsuc n) = n + 1

unfoldable pub is_minus : ℤ → Bool
is_minus (pos n) = false
is_minus (negsuc n) = true

unfoldable pub digit_char : ℕ → ℕ
digit_char rem = if ltb rem 10 then rem + b'0' else (rem - 10) + b'a'

-- The `do` loop: `ptr` is a place in `str`. A number of 32 bits has at most 32 digits.
unfoldable pub write_digits : ℕ → ℕ → ℕ → ℕ → List ℕ → ℕ × List ℕ
write_digits zero base tmp_value ptr str = (ptr, str)
write_digits (suc n) base tmp_value ptr str =
    let str' = set str ptr (digit_char (tmp_value % base)) in
    let rest = write_digits n base (tmp_value / base) (ptr + 1) str' in
    if tmp_value / base == 0 then (ptr + 1, str') else rest

-- The second loop swaps the ends of a range.
unfoldable pub swap_ends : ℕ → ℕ → ℕ → List ℕ → List ℕ
swap_ends zero ptr1 ptr str = str
swap_ends (suc n) ptr1 ptr str =
    let rest =
      swap_ends n (ptr1 + 1) (ptr - 1)
        (set (set str ptr (get_or str ptr1 0)) ptr1 (get_or str ptr 0)) in
    if ltb ptr1 ptr then rest else str

-- Where the digits start.
unfoldable pub digits_start : ℤ → ℕ → ℕ
digits_start value base = if is_minus value && base == 10 then 1 else 0

unfoldable pub put_sign : ℤ → ℕ → List ℕ → List ℕ
put_sign value base str = if is_minus value && base == 10 then set str 0 b'-' else str

-- The base is not negative.
unfoldable pub itoa : ℤ → List ℕ → ℕ → List ℕ
itoa value str base =
    let start = digits_start value base in
    let (ptr, str') = write_digits 32 base (magnitude value) start (put_sign value base str) in
    if ltb base 2 || ltb 36 base then set str 0 0 else swap_ends 32 start (ptr - 1) (set str' ptr 0)
