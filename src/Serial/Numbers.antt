-- ===== src/Serial/Numbers.antt =====
-- The numbers that the serial line prints, and how they are read.
use native.Mathlib.Nat.{pow-suc, div-div-eq-div-mul}
use minimalist_os.Base.{
  ℕ, zero, suc, ◌+◌, ◌-◌, ◌*◌, ◌/◌, ◌%◌, ◌^◌, ◌≤◌, ◌<◌, ◌≡◌, refl, sym, ap, ◌∙◌, List, [], ◌∷◌, inl,
  inr, ltb, ◌==◌, if◌then◌else◌, set, get_or, get_or-set_self, get_or-set_ne, length, length-set,
  arith, replicate, Bool-cases, ==_iff,
}
use minimalist_os.Base.Finite.{all_below-get}
use minimalist_os.Ports.{Ports}
use minimalist_os.Serial.Sends.{Sends, Sends-nil, Sends-append, serial_putchar-Sends}
use minimalist_os.Serial.{
  hex_chars, put_nibbles, serial_hex, store_digits, put_back, serial_decimal, serial_putchar,
}

-- A number in base `base`, highest digit first, behind the digits that make up `acc`.
unfoldable pub read_digits : ℕ → ℕ → List ℕ → ℕ
read_digits base acc [] = acc
read_digits base acc (c ∷ s) =
    read_digits base (acc * base + (if ltb c b'A' then c - b'0' else c - b'A' + 10)) s

-- The first `j` bytes of a buffer, the last one first.
unfoldable reversed : ℕ → List ℕ → List ℕ
reversed zero buffer = []
reversed (suc j) buffer = get_or buffer j 0 ∷ reversed j buffer

reversed-set :
    (j i v : ℕ) (buffer : List ℕ) → j ≤ i → reversed j (set buffer i v) ≡ reversed j buffer
unfolding reversed
reversed-set zero i v buffer h = refl
reversed-set (suc j) i v buffer h =
    ap (λ c. c ∷ reversed j (set buffer i v)) (get_or-set_ne buffer i j v 0 (λ e. omega arith))
    ∙ ap (λ s. get_or buffer j 0 ∷ s) (reversed-set j i v buffer (omega arith))

length-reversed : (j : ℕ) (buffer : List ℕ) → length (reversed j buffer) ≡ j
unfolding reversed
length-reversed zero buffer = refl
length-reversed (suc j) buffer = ap suc (length-reversed j buffer)

reversed-positive :
    (j value : ℕ) (buffer : List ℕ)
    → 0 < value
    → read_digits 10 0 (reversed j buffer) ≡ value
    → 0 < j
unfolding read_digits reversed
reversed-positive zero value buffer more h = absurd (omega (arith, h))
reversed-positive (suc j) value buffer more h = omega arith

put_back-Sends :
    (line j : ℕ) (buffer : List ℕ) (p : Ports)
    → Sends line (reversed j buffer) p (put_back j line buffer p)
unfolding put_back reversed
put_back-Sends line zero buffer p = Sends-nil line p
put_back-Sends line (suc j) buffer p =
    Sends-append (serial_putchar-Sends line (get_or buffer j 0) p)
      (put_back-Sends line j buffer (serial_putchar line (get_or buffer j 0) p))

-- The lowest digit, stored at place `i`.
read-stored :
    (value i : ℕ) (buffer : List ℕ)
    → i < length buffer
    → read_digits 10 (value / 10) (reversed (i + 1) (set buffer i (value % 10 + b'0')))
      ≡ read_digits 10 value (reversed i buffer)
unfolding read_digits reversed
read-stored value i buffer h =
    let d = value % 10 + b'0' in
    let buffer' = set buffer i d in
    let acc = value / 10 in
    ap (λ j. read_digits 10 acc (reversed j buffer')) {x = i + 1} {y = suc i} (omega arith)
    ∙ ap (λ c. read_digits 10 acc (c ∷ reversed i buffer')) (get_or-set_self buffer i d 0 h)
    ∙ ap (λ s. read_digits 10 acc (d ∷ s)) (reversed-set i i d buffer (omega arith))
    ∙ ap (λ v. read_digits 10 v (reversed i buffer)) (ground arith)

-- Storing the digits of a value in front of others that read as `acc` does not change what all of
-- them read as.
store_digits-read_digits :
    (n value i : ℕ) (buffer : List ℕ)
    → value < 10 ^ n
    → i + n ≤ length buffer
    → let (i', buffer') = store_digits n value i buffer in
      (read_digits 10 0 (reversed i' buffer') ≡ read_digits 10 value (reversed i buffer))
      × (i' ≤ i + n)
unfolding store_digits
store_digits-read_digits zero value i buffer small room =
    let none_left : value ≡ 0 = omega arith in
    (ap (λ v. read_digits 10 v (reversed i buffer)) (sym none_left), omega arith)
store_digits-read_digits (suc n) value i buffer small room = elim (Bool-cases (ltb 0 value)) [
  | inl more ↦
      let d = value % 10 + b'0' in
      let (same, few) =
        store_digits-read_digits n (value / 10) (i + 1) (set buffer i d)
          (omega (arith, pow-suc 10 n)) (omega (arith, length-set buffer i d)) in
      rw (more, store_digits) (same ∙ read-stored value i buffer (omega arith), omega (arith, few))
  | inr done ↦
      let none_left : value ≡ 0 = ground arith in
      rw (done, store_digits)
        (ap (λ v. read_digits 10 v (reversed i buffer)) (sym none_left), omega arith)
]

-- The lowest `n` digits complete a number whose other digits have been read.
unfoldable nibbles : ℕ → ℕ → List ℕ
nibbles zero value = []
nibbles (suc i) value = get_or hex_chars (value / 2 ^ (i * 4) % 16) 0 ∷ nibbles i value

put_nibbles-Sends :
    (line n value : ℕ) (p : Ports) → Sends line (nibbles n value) p (put_nibbles n line value p)
unfolding nibbles put_nibbles
put_nibbles-Sends line zero value p = Sends-nil line p
put_nibbles-Sends line (suc i) value p =
    let c = get_or hex_chars (value / 2 ^ (i * 4) % 16) 0 in
    Sends-append (serial_putchar-Sends line c p)
      (put_nibbles-Sends line i value (serial_putchar line c p))

digit : ℕ → ℕ
digit c = if ltb c b'A' then c - b'0' else c - b'A' + 10

digit-hex_chars : (r : ℕ) → r < 16 → digit (get_or hex_chars r 0) ≡ r
unfolding digit
digit-hex_chars r h =
    (==_iff _ _).0 (all_below-get 16 r (λ k. digit (get_or hex_chars k 0) == k) refl h)

shift_four : (i : ℕ) → 2 ^ (i * 4) * 16 ≡ 2 ^ (suc i * 4)
shift_four i =
    let k = i * 4 in
    omega (
      arith,
      pow-suc 2 k,
      pow-suc 2 (suc k),
      pow-suc 2 (suc (suc k)),
      pow-suc 2 (suc (suc (suc k))),
    )
    ∙ ap (λ e. 2 ^ e) {x = suc (suc (suc (suc k)))} {y = suc i * 4} (omega arith)

read_digits-nibbles : (n value : ℕ) → read_digits 16 (value / 2 ^ (n * 4)) (nibbles n value) ≡ value
unfolding read_digits nibbles digit
read_digits-nibbles zero value = omega arith
read_digits-nibbles (suc i) value =
    let low = value / 2 ^ (i * 4) in
    let split : value / 2 ^ (suc i * 4) ≡ low / 16 =
      sym (div-div-eq-div-mul value (2 ^ (i * 4)) 16 ∙ ap (λ d. value / d) (shift_four i)) in
    let last : digit (get_or hex_chars (low % 16) 0) ≡ low % 16 =
      digit-hex_chars (low % 16) (omega arith) in
    ap (λ v. read_digits 16 v (nibbles i value)) (omega (arith, split, last))
    ∙ read_digits-nibbles i value

-- `serial_hex` sends `0x` and the number in eight digits, whatever the line answers.
pub serial_hex-read_digits :
    (line value : ℕ) (p : Ports)
    → value < 2 ^ 32
    → (digits : List ℕ) × Sends line (b'0' ∷ b'x' ∷ digits) p (serial_hex line value p)
      × (read_digits 16 0 digits ≡ value)
unfolding serial_hex
serial_hex-read_digits line value p h =
    let q = serial_putchar line b'0' p in
    let sent = Sends-append (serial_putchar-Sends line b'0' p) (
      Sends-append (serial_putchar-Sends line b'x' q)
        (put_nibbles-Sends line 8 value (serial_putchar line b'x' q))) in
    let top : 0 ≡ value / 2 ^ 32 = omega arith in
    (
      nibbles 8 value,
      sent,
      ap (λ v. read_digits 16 v (nibbles 8 value)) top ∙ read_digits-nibbles 8 value,
    )

-- Whatever the line answers, `serial_decimal` sends a number of 32 bits as one to ten characters, for
-- which its buffer of 16 bytes has room, with at most 100002 accesses to the ports for each, and
-- reading them as a decimal gives the number.
pub serial_decimal-read_digits :
    (line value : ℕ) (p : Ports)
    → value < 2 ^ 32
    → (digits : List ℕ) × Sends line digits p (serial_decimal line value p)
      × (read_digits 10 0 digits ≡ value)
      × (0 < length digits)
      × (length digits ≤ 10)
unfolding serial_decimal read_digits reversed
serial_decimal-read_digits line value p h = elim (Bool-cases (value == 0)) [
  | inl none_left ↦
      let e : 0 ≡ value = ground arith in
      rw (none_left, serial_decimal)
        (b'0' ∷ [], serial_putchar-Sends line b'0' p, e, omega arith, omega arith)
  | inr more ↦
      let (i, buffer) = store_digits 10 value 0 (replicate 16 0) in
      let (same, few) =
        store_digits-read_digits 10 value 0 (replicate 16 0) (omega arith) (omega arith) in
      let long = length-reversed i buffer in
      let some_left : 0 < value = ground arith in
      rw (more, serial_decimal)
        (
          reversed i buffer,
          put_back-Sends line i buffer p,
          same,
          omega (arith, long, reversed-positive i value buffer some_left same),
          omega (arith, long, few),
        )
]
