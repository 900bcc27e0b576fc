-- ===== src/CString/Itoa/Digits.antt =====
-- The two loops of `itoa`: the digits that the first one writes, and where the second one puts them.
use native.Mathlib.Nat.{pow-suc, div-lt_iff_lt-mul, mul-le-mul_left}
use native.Mathlib.Decide.{dec_lt}
use minimalist_os.Base.{
  ℕ, zero, suc, ◌+◌, ◌-◌, ◌*◌, ◌/◌, ◌%◌, ◌^◌, ◌≤◌, ◌<◌, ◌≡◌, ◌≢◌, ◌⊎◌, inl, inr, refl, ap, ◌∙◌,
  List, ltb, ◌==◌, set, get_or, get_or-set_self, get_or-set_ne, length, length-set, arith,
  Bool-cases, ltb→lt,
}
use minimalist_os.CString.Itoa.{digit_char, write_digits, swap_ends}

-- What is left of a number after `i` digits.
abbrev pub left_after : ℕ → ℕ → ℕ → ℕ
left_after base m zero = m
left_after base m (suc i) = left_after base (m / base) i

pub left_after-suc : (base m i : ℕ) → left_after base m (suc i) ≡ left_after base m i / base
left_after-suc base m zero = refl
left_after-suc base m (suc i) = left_after-suc base (m / base) i

-- The digits of `m` stand in reverse from place `p` up to `end`.
pub record Digits (base m p : ℕ) (str : List ℕ) (end : ℕ) (str' : List ℕ) : Type 0 where
  pub count : ℕ
  pub positive : 0 < count
  pub ends : end ≡ p + count
  pub all : left_after base m count ≡ 0
  pub digits : (j : ℕ) → j < count → get_or str' (p + j) 0 ≡ digit_char (left_after base m j % base)
  pub before : (j : ℕ) → j < p → get_or str' j 0 ≡ get_or str j 0
  pub size : length str' ≡ length str

smaller : (f base m : ℕ) → 2 ≤ base → m < 2 ^ suc f → m / base < 2 ^ f
smaller f base m two fits =
    let more : 2 ^ f * 2 ≤ 2 ^ f * base = mul-le-mul_left (2 ^ f) two in
    (div-lt_iff_lt-mul {k = base} {x = m} {y = 2 ^ f} (omega arith)).1
      (omega (arith, pow-suc 2 f, more))

fuel-positive : (f n : ℕ) → n < 2 ^ f → n ≢ 0 → 0 < f
fuel-positive zero n lt ne = absurd (omega arith)
fuel-positive (suc f) n lt ne = omega arith

-- The first digit stands where it was written, and the others behind it.
digit_at :
    (base m p count : ℕ) (str str' : List ℕ)
    → p < length str
    → get_or str' p 0 ≡ get_or (set str p (digit_char (m % base))) p 0
    → ((j : ℕ)
        → j < count
        → get_or str' (p + 1 + j) 0 ≡ digit_char (left_after base (m / base) j % base))
    → (j : ℕ) → j < suc count
    → get_or str' (p + j) 0 ≡ digit_char (left_after base m j % base)
digit_at base m p count str str' inside here behind zero lt =
    ap (λ i. get_or str' i 0) {x = p + zero} {y = p} (omega arith)
    ∙ here
    ∙ get_or-set_self str p (digit_char (m % base)) 0 inside
digit_at base m p count str str' inside here behind (suc j) lt =
    ap (λ i. get_or str' i 0) {x = p + suc j} {y = p + 1 + j} (omega arith) ∙ behind j (omega arith)

pub write_digits-Digits :
    (f base m p : ℕ) (str : List ℕ)
    → 2 ≤ base
    → m < 2 ^ f
    → 0 < f
    → p + f ≤ length str
    → let (end, str') = write_digits f base m p str in Digits base m p str end str' × (end ≤ p + f)
unfolding write_digits
write_digits-Digits zero base m p str two fits some_fuel room = absurd (omega arith)
write_digits-Digits (suc f) base m p str two fits some_fuel room =
    let c = digit_char (m % base) in
    let str1 = set str p c in
    elim (Bool-cases (m / base == 0)) [
      | inl over ↦ rw over (
        record {
          count = 1;
          positive = omega arith;
          ends = refl;
          all = ground arith;
          digits = digit_at base m p 0 str str1 (omega arith) refl (λ j lt. absurd (omega arith));
          before = λ j lt. get_or-set_ne str p j c 0 (omega arith);
          size = length-set str p c;
        },
        omega arith,
      )
      | inr more ↦
          let (d, bound) =
            write_digits-Digits f base (m / base) (p + 1) str1 two (smaller f base m two fits)
              (fuel-positive f (m / base) (smaller f base m two fits) (ground arith))
              (omega (arith, length-set str p c)) in
          rw more (
            record {
              count = suc d.count;
              positive = omega arith;
              ends = omega (arith, d.ends);
              all = d.all;
              digits =
                  digit_at base m p d.count str (write_digits f base (m / base) (p + 1) str1).1
                    (omega arith) (d.before p (omega arith)) d.digits;
              before = λ j lt. d.before j (omega arith) ∙ get_or-set_ne str p j c 0 (omega arith);
              size = d.size ∙ length-set str p c;
            },
            omega (arith, bound),
          )
    ]

length-swap_ends : (n lo hi : ℕ) (str : List ℕ) → length (swap_ends n lo hi str) ≡ length str
unfolding swap_ends
length-swap_ends zero lo hi str = refl
length-swap_ends (suc n) lo hi str =
    let a = get_or str lo 0 in
    let b = get_or str hi 0 in
    elim (Bool-cases (ltb lo hi)) [
      | inr met ↦ rw met refl
      | inl apart ↦ rw apart (
          length-swap_ends n (lo + 1) (hi - 1) (set (set str hi a) lo b)
          ∙ length-set (set str hi a) lo b
          ∙ length-set str hi a)
    ]

pub swap_ends-out :
    (n lo hi j : ℕ) (str : List ℕ)
    → (j < lo) ⊎ (hi < j)
    → get_or (swap_ends n lo hi str) j 0 ≡ get_or str j 0
unfolding swap_ends
swap_ends-out zero lo hi j str out = refl
swap_ends-out (suc n) lo hi j str out =
    let a = get_or str lo 0 in
    let b = get_or str hi 0 in
    elim (Bool-cases (ltb lo hi)) [
      | inr met ↦ rw met refl
      | inl apart ↦
          let lt = ltb→lt lo hi apart in
          let (q, r, s) = away lt out in
          rw apart (
            swap_ends-out n (lo + 1) (hi - 1) j (set (set str hi a) lo b) s
            ∙ get_or-set_ne (set str hi a) lo j b 0 q
            ∙ get_or-set_ne str hi j a 0 r)
    ]
  where
    away : lo < hi → (j < lo) ⊎ (hi < j) → (lo ≢ j) × (hi ≢ j) × ((j < lo + 1) ⊎ (hi - 1 < j))
    away lt (inl below) = (omega arith, omega arith, inl (omega arith))
    away lt (inr above) = (omega arith, omega arith, inr (omega arith))

-- The range is reversed when there are rounds enough.
pub swap_ends-in :
    (n lo hi j : ℕ) (str : List ℕ)
    → hi ≤ lo + n
    → hi < length str
    → lo ≤ j
    → j ≤ hi
    → get_or (swap_ends n lo hi str) j 0 ≡ get_or str (lo + hi - j) 0
unfolding swap_ends
swap_ends-in zero lo hi j str enough room from to = ap (λ i. get_or str i 0) (omega arith)
swap_ends-in (suc n) lo hi j str enough room from to = elim (Bool-cases (ltb lo hi)) [
  | inr met ↦ rw met (ap (λ i. get_or str i 0) (ground arith))
  | inl apart ↦
      let lt = ltb→lt lo hi apart in
      let a = get_or str lo 0 in
      let b = get_or str hi 0 in
      let str1 = set str hi a in
      let str2 = set str1 lo b in
      let in1 : lo < length str1 = omega (arith, length-set str hi a) in
      rw apart (elim (dec_lt lo j) [
        | no first ↦
            let here : j ≡ lo = omega arith in
            swap_ends-out n (lo + 1) (hi - 1) j str2 (inl (omega arith))
            ∙ ap (λ i. get_or str2 i 0) here
            ∙ get_or-set_self str1 lo b 0 in1
            ∙ ap (λ i. get_or str i 0) {x = hi} {y = lo + hi - j} (omega arith)
        | yes later ↦ elim (dec_lt j hi) [
          | no last ↦
              let here : j ≡ hi = omega arith in
              swap_ends-out n (lo + 1) (hi - 1) j str2 (inr (omega arith))
              ∙ get_or-set_ne str1 lo j b 0 (omega arith)
              ∙ ap (λ i. get_or str1 i 0) here
              ∙ get_or-set_self str hi a 0 room
              ∙ ap (λ i. get_or str i 0) {x = lo} {y = lo + hi - j} (omega arith)
          | yes inner ↦
              swap_ends-in n (lo + 1) (hi - 1) j str2 (omega arith)
                (omega (arith, length-set str hi a, length-set str1 lo b)) (omega arith)
                (omega arith)
              ∙ ap (λ i. get_or str2 i 0) {x = lo + 1 + (hi - 1) - j} {y = lo + hi - j}
                  (omega arith)
              ∙ get_or-set_ne str1 lo (lo + hi - j) b 0 (omega arith)
              ∙ get_or-set_ne str hi (lo + hi - j) a 0 (omega arith)
        ]
      ])
]
