-- ===== src/CString/Itoa/Reads.antt =====
-- Reading a number that `itoa` has written.
use native.Mathlib.Nat.{mod-lt, div-add-mod'}
use minimalist_os.Base.{
  ℕ, zero, suc, ◌+◌, ◌-◌, ◌*◌, ◌/◌, ◌%◌, ◌^◌, ◌≤◌, ◌<◌, ◌≡◌, ◌≢◌, inl, inr, refl, sym, ap, ◌∙◌,
  List, true, false, ◌&&◌, ◌||◌, ltb, ◌==◌, ℤ, if◌then◌else◌, set, get_or, get_or-set_self,
  get_or-set_ne, length, length-set, arith, Bool-cases,
}
use minimalist_os.CString.Itoa.{
  magnitude, is_minus, digit_char, write_digits, swap_ends, digits_start, put_sign, itoa,
}
use minimalist_os.CString.Itoa.Digits.{
  left_after, left_after-suc, Digits, write_digits-Digits, swap_ends-in, swap_ends-out,
}

-- The number that stands in a text from place `p` on, most significant digit first, up to the
-- terminator; `acc` is the number read so far.
pub digit_value : ℕ → ℕ
digit_value c = if ltb c b'a' then c - b'0' else c - b'a' + 10

pub read_number : ℕ → ℕ → List ℕ → ℕ → ℕ → ℕ
read_number zero base str p acc = acc
read_number (suc n) base str p acc =
    let c = get_or str p 0 in
    let more = read_number n base str (p + 1) (acc * base + digit_value c) in
    if c == 0 then acc else more

digit-digit_char : (r : ℕ) → r < 36 → digit_value (digit_char r) ≡ r
unfolding digit_value digit_char
digit-digit_char r lt = ground arith

digit_char-positive : (r : ℕ) → r < 36 → digit_char r ≢ 0
unfolding digit_char
digit_char-positive r lt = ground arith

-- Reading the last `j` digits, when the number before them has been read.
read-digits :
    (j n base m e : ℕ) (str : List ℕ)
    → 2 ≤ base
    → base ≤ 36
    → j < n
    → j ≤ e
    → ((i : ℕ) → i < j → get_or str (e - 1 - i) 0 ≡ digit_char (left_after base m i % base))
    → get_or str e 0 ≡ 0
    → read_number n base str (e - j) (left_after base m j) ≡ m
unfolding read_number
read-digits zero zero base m e str lo hi enough inside digits ends = absurd (omega arith)
read-digits zero (suc n) base m e str lo hi enough inside digits ends =
    let at : get_or str (e - zero) 0 ≡ 0 =
      ap (λ i. get_or str i 0) {x = e - zero} {y = e} (omega arith) ∙ ends in
    let over : (get_or str (e - zero) 0 == 0) ≡ true = ground arith in rw over refl
read-digits (suc j) zero base m e str lo hi enough inside digits ends = absurd (omega arith)
read-digits (suc j) (suc n) base m e str lo hi enough inside digits ends =
    let q = left_after base m j in
    let r : q % base < base = mod-lt q {m = base} (omega arith) in
    let c : get_or str (e - suc j) 0 ≡ digit_char (q % base) =
      ap (λ i. get_or str i 0) {x = e - suc j} {y = e - 1 - j} (omega arith)
      ∙ digits j (omega arith) in
    let rest = left_after base (m / base) j in
    let v = digit_value (get_or str (e - suc j) 0) in
    let char : (get_or str (e - suc j) 0 == 0) ≡ false =
      ground (arith, c, digit_char-positive (q % base) (omega arith)) in
    let value : v ≡ q % base = ap digit_value c ∙ digit-digit_char (q % base) (omega arith) in
    let so_far : rest * base + v ≡ q =
      ap (λ t. t * base + v) (left_after-suc base m j)
      ∙ ap (λ t. q / base * base + t) value
      ∙ div-add-mod' q base in
    rw char (
      ap (λ i. read_number n base str i (rest * base + v)) {x = e - suc j + 1} {y = e - j}
        (omega arith)
      ∙ ap (read_number n base str (e - j)) so_far
      ∙ read-digits j n base m e str lo hi (omega arith) (omega arith)
          (λ i lt. digits i (omega arith)) ends)

length-put_sign :
    (value : ℤ) (base : ℕ) (str : List ℕ) → length (put_sign value base str) ≡ length str
unfolding put_sign
length-put_sign value base str = elim (Bool-cases (is_minus value && base == 10)) [
  | inl minus ↦ rw minus (length-set str 0 b'-')
  | inr plain ↦ rw plain refl
]

digits_start-le : (value : ℤ) (base : ℕ) → digits_start value base ≤ 1
unfolding digits_start
digits_start-le value base = elim (Bool-cases (is_minus value && base == 10)) [
  | inl minus ↦ rw minus (omega arith)
  | inr plain ↦ rw plain (omega arith)
]

digits_start-minus :
    (value : ℤ) (base : ℕ) → (is_minus value && base == 10) ≡ true → digits_start value base ≡ 1
unfolding digits_start
digits_start-minus value base minus = rw minus refl

sign-first :
    (value : ℤ) (base : ℕ) (str : List ℕ)
    → (is_minus value && base == 10) ≡ true
    → 0 < length str
    → get_or (put_sign value base str) 0 0 ≡ b'-'
unfolding put_sign
sign-first value base str minus room = rw minus (get_or-set_self str 0 b'-' 0 room)

-- The digits in reverse, with a terminator behind them, are read as the number once they were
-- swapped.
swapped-reads :
    (base m p e : ℕ) (str0 str1 : List ℕ)
    → 2 ≤ base
    → base ≤ 36
    → Digits base m p str0 e str1
    → e ≤ p + 32
    → e < length str1
    → read_number 33 base (swap_ends 32 p (e - 1) (set str1 e 0)) p 0 ≡ m
swapped-reads base m p e str0 str1 lo hi d bound room =
    let str2 = set str1 e 0 in
    let out = swap_ends 32 p (e - 1) str2 in
    let digit_in : (i : ℕ)
        → i < d.count
        → get_or out (e - 1 - i) 0 ≡ digit_char (left_after base m i % base) =
      λ i lt.
        (swap_ends-in 32 p (e - 1) (e - 1 - i) str2 (omega (arith, bound))
            (omega (arith, length-set str1 e 0, d.positive, d.ends)) (omega (arith, d.ends))
            (omega arith)
          ∙ ap (λ t. get_or str2 t 0) {x = p + (e - 1) - (e - 1 - i)} {y = p + i}
              (omega (arith, d.ends))
          ∙ get_or-set_ne str1 e (p + i) 0 0 (omega (arith, d.ends))
          ∙ d.digits i lt) in
    let ended : get_or out e 0 ≡ 0 =
      swap_ends-out 32 p (e - 1) e str2 (inr (omega (arith, d.positive, d.ends)))
      ∙ get_or-set_self str1 e 0 0 room in
    ap (λ t. read_number 33 base out t 0) {x = p} {y = e - d.count} (omega (arith, d.ends))
    ∙ ap (read_number 33 base out (e - d.count)) (sym d.all)
    ∙ read-digits d.count 33 base m e out lo hi (omega (arith, d.ends, bound))
        (omega (arith, d.ends)) digit_in ended

-- Reading what `itoa` has written, from behind the sign on, gives the value without its sign, in
-- every base from 2 to 36 and for every value whose magnitude has 32 bits, where the buffer has 34
-- bytes; for base 10 and a negative value the text starts with the sign.
pub read_number-itoa :
    (value : ℤ) (str : List ℕ) (base : ℕ)
    → 2 ≤ base
    → base ≤ 36
    → magnitude value < 2 ^ 32
    → 34 ≤ length str
    → (read_number 33 base (itoa value str base) (digits_start value base) 0 ≡ magnitude value)
      × ((is_minus value && base == 10) ≡ true → get_or (itoa value str base) 0 0 ≡ b'-')
unfolding itoa
read_number-itoa value str base lo hi small room =
    let p = digits_start value base in
    let str0 = put_sign value base str in
    let (d, bound) =
      write_digits-Digits 32 base (magnitude value) p str0 lo small (omega arith)
        (omega (arith, digits_start-le value base, length-put_sign value base str)) in
    let e = (write_digits 32 base (magnitude value) p str0).0 in
    let str1 = (write_digits 32 base (magnitude value) p str0).1 in
    let str2 = set str1 e 0 in
    let valid : (ltb base 2 || ltb 36 base) ≡ false = ground arith in
    rw valid (
      swapped-reads base (magnitude value) p e str0 str1 lo hi d bound (
          omega (arith, d.size, bound, digits_start-le value base, length-put_sign value base str)),
      λ minus.
          (let first : p ≡ 1 = digits_start-minus value base minus in
            swap_ends-out 32 p (e - 1) 0 str2 (inl (omega (arith, first)))
            ∙ get_or-set_ne str1 e 0 0 0 (omega (arith, d.positive, d.ends))
            ∙ d.before 0 (omega (arith, first))
            ∙ sign-first value base str minus (omega arith)),
    )
