-- ===== src/Base/Bits.antt =====
-- Bit operations on words at one position: what `w & (1 << k)`, `w |= (1 << k)` and
-- `w &= ~(1 << k)` do to each bit of a word. Bitmaps of pages and blocks are read through these.
use Prim.Native.Nat.{
  ℕ, zero, suc, ◌+◌, ◌-◌, ◌*◌, ◌/◌, ◌%◌, ◌^◌, ◌≤◌, ◌<◌, min, max, bit_and, bit_or, digits, bitwise,
  bit_and-bitwise, bit_or-bitwise,
}
use mathlib.Core.Path.{◌≡◌, refl, sym, ap, ◌∙◌}
use mathlib.Core.Bool.{Bool, true, false, not}
use native.Mathlib.Nat.{pow-suc}
use native.Mathlib.Omega.{arith}
use minimalist_os.Base.Tests.{◌==◌, if◌then◌else◌}

module _ (z : ℕ → ℕ) (f : ℕ → ℕ → ℕ) where
  -- The count of digits does not matter once it covers the first number.
  digits_enough : (n m a b : ℕ) → a ≤ n → a ≤ m → digits z f n a b ≡ digits z f m a b
  digits_enough zero zero a b p q = refl
  digits_enough zero (suc m) zero b p q = refl
  digits_enough zero (suc m) (suc a) b p q = absurd (omega arith)
  digits_enough (suc n) zero zero b p q = refl
  digits_enough (suc n) zero (suc a) b p q = absurd (omega arith)
  digits_enough (suc n) (suc m) zero b p q = refl
  digits_enough (suc n) (suc m) (suc a) b p q =
      ap (λ t. t * 2 + f (suc a % 2) (b % 2))
        (digits_enough n m (suc a / 2) (b / 2) (omega arith) (omega arith))

  -- An operation on digits acts on the lowest digit and on the rest.
  bitwise_step :
      ((b : ℕ) → z b ≡ z (b / 2) * 2 + f 0 (b % 2))
      → (a b : ℕ) → bitwise z f a b ≡ bitwise z f (a / 2) (b / 2) * 2 + f (a % 2) (b % 2)
  bitwise_step base zero b = base b
  bitwise_step base (suc a) b =
      ap (λ t. t * 2 + f (suc a % 2) (b % 2))
        (digits_enough a (suc a / 2) (suc a / 2) (b / 2) (omega arith) (omega arith))

pub and_step : (a b : ℕ) → bit_and a b ≡ bit_and (a / 2) (b / 2) * 2 + min (a % 2) (b % 2)
and_step a b =
    bit_and-bitwise a b
    ∙ bitwise_step (λ b. 0) min (λ b. omega arith) a b
    ∙ ap (λ t. t * 2 + min (a % 2) (b % 2)) (sym (bit_and-bitwise (a / 2) (b / 2)))

pub or_step : (a b : ℕ) → bit_or a b ≡ bit_or (a / 2) (b / 2) * 2 + max (a % 2) (b % 2)
or_step a b =
    bit_or-bitwise a b
    ∙ bitwise_step (λ b. b) max (λ b. omega arith) a b
    ∙ ap (λ t. t * 2 + max (a % 2) (b % 2)) (sym (bit_or-bitwise (a / 2) (b / 2)))

-- The `k`-th binary digit.
abbrev pub bit_at : ℕ → ℕ → ℕ
bit_at w zero = w % 2
bit_at w (suc k) = bit_at (w / 2) k

pub bit_at-lt : (w k : ℕ) → bit_at w k < 2
bit_at-lt w zero = omega arith
bit_at-lt w (suc k) = bit_at-lt (w / 2) k

pub bit_at-zero : (k : ℕ) → bit_at 0 k ≡ 0
bit_at-zero zero = refl
bit_at-zero (suc k) = bit_at-zero k

pub bit_at-bit_and : (a b k : ℕ) → bit_at (bit_and a b) k ≡ min (bit_at a k) (bit_at b k)
bit_at-bit_and a b zero = omega (arith, and_step a b)
bit_at-bit_and a b (suc k) =
    ap (λ w. bit_at w k) (omega (arith, and_step a b)) ∙ bit_at-bit_and (a / 2) (b / 2) k

pub bit_at-bit_or : (a b k : ℕ) → bit_at (bit_or a b) k ≡ max (bit_at a k) (bit_at b k)
bit_at-bit_or a b zero = omega (arith, or_step a b)
bit_at-bit_or a b (suc k) =
    ap (λ w. bit_at w k) (omega (arith, or_step a b)) ∙ bit_at-bit_or (a / 2) (b / 2) k

pub pow_pos : (k : ℕ) → 0 < 2 ^ k
pow_pos zero = omega arith
pow_pos (suc k) = omega (arith, pow_pos k, pow-suc 2 k)

pub pow_lt : (k n : ℕ) → k < n → 2 ^ k < 2 ^ n
pow_lt k zero h = absurd (omega arith)
pow_lt zero (suc n) h = omega (arith, pow_pos n, pow-suc 2 n)
pow_lt (suc k) (suc n) h = omega (arith, pow_lt k n (omega arith), pow-suc 2 n, pow-suc 2 k)

half_pow : (k : ℕ) → 2 ^ suc k / 2 ≡ 2 ^ k
half_pow k = omega (arith, pow-suc 2 k)

-- `1 << k` has one digit.
pub bit_at-pow : (k j : ℕ) → bit_at (2 ^ k) j ≡ (if k == j then 1 else 0)
bit_at-pow zero zero = refl
bit_at-pow zero (suc j) = ground (arith, bit_at-zero j)
bit_at-pow (suc k) zero = ground (arith, pow-suc 2 k)
bit_at-pow (suc k) (suc j) = ap (λ w. bit_at w j) (half_pow k) ∙ bit_at-pow k j ∙ ground arith

-- `2 ^ n - 1` has all of its `n` digits.
bit_at_ones : (n j : ℕ) → j < n → bit_at (2 ^ n - 1) j ≡ 1
bit_at_ones zero j h = absurd (omega arith)
bit_at_ones (suc n) zero h = omega (arith, pow_pos n, pow-suc 2 n)
bit_at_ones (suc n) (suc j) h =
    ap (λ w. bit_at w j) (omega (arith, pow_pos n, pow-suc 2 n)) ∙ bit_at_ones n j (omega arith)

-- `~(1 << k)` on `n` bits has every digit but the `k`-th.
bit_at_mask : (n k j : ℕ) → k < n → j < n → bit_at (2 ^ n - 1 - 2 ^ k) j ≡ (if k == j then 0 else 1)
bit_at_mask zero k j h g = absurd (omega arith)
bit_at_mask (suc n) zero zero h g = ground (arith, pow_pos n, pow-suc 2 n)
bit_at_mask (suc n) zero (suc j) h g =
    ap (λ w. bit_at w j) (omega (arith, pow_pos n, pow-suc 2 n))
    ∙ bit_at_ones n j (omega arith)
    ∙ ground arith
bit_at_mask (suc n) (suc k) zero h g =
    ground (arith, pow-suc 2 n, pow-suc 2 k, pow_lt k n (omega arith))
bit_at_mask (suc n) (suc k) (suc j) h g =
    ap (λ w. bit_at w j) (omega (arith, pow-suc 2 n, pow-suc 2 k, pow_lt k n (omega arith)))
    ∙ bit_at_mask n k j (omega arith) (omega arith)
    ∙ ground arith

pub bit_and-zero : (n w : ℕ) → w ≤ n → bit_and w 0 ≡ 0
bit_and-zero n zero h = refl
bit_and-zero zero (suc w) h = absurd (omega arith)
bit_and-zero (suc n) (suc w) h =
    omega (arith, and_step (suc w) 0, bit_and-zero n (suc w / 2) (omega arith))

and_pow : (w k : ℕ) → bit_and w (2 ^ k) ≡ bit_at w k * 2 ^ k
and_pow w zero = omega (arith, and_step w 1, bit_and-zero (w / 2) (w / 2) (omega arith))
and_pow w (suc k) = omega (
  arith,
  and_step w (2 ^ suc k),
  ap (bit_and (w / 2)) (half_pow k),
  and_pow (w / 2) k,
  ap (λ t. bit_at (w / 2) k * t) (pow-suc 2 k),
  pow-suc 2 k,
)

-- The three operations of the C code on a 32-bit word.
unfoldable pub test_bit : ℕ → ℕ → Bool
test_bit w k = not (bit_and w (2 ^ k) == 0)

unfoldable pub set_bit : ℕ → ℕ → ℕ
set_bit w k = bit_or w (2 ^ k)

unfoldable pub clear_bit : ℕ → ℕ → ℕ
clear_bit w k = bit_and w (2 ^ 32 - 1 - 2 ^ k)

pub test_bit_lem : (w k : ℕ) → test_bit w k ≡ (bit_at w k == 1)
unfolding test_bit
test_bit_lem w k = grind (arith, and_pow w k, pow_pos k, bit_at-lt w k)

pub test_bit-set_bit :
    (w k j : ℕ) → test_bit (set_bit w k) j ≡ (if k == j then true else test_bit w j)
unfolding set_bit
test_bit-set_bit w k j = ground (
  arith,
  test_bit_lem (bit_or w (2 ^ k)) j,
  test_bit_lem w j,
  bit_at-bit_or w (2 ^ k) j,
  bit_at-pow k j,
  bit_at-lt w j,
)

pub test_bit-clear_bit :
    (w k j : ℕ)
    → k < 32
    → j < 32
    → test_bit (clear_bit w k) j ≡ (if k == j then false else test_bit w j)
unfolding clear_bit
test_bit-clear_bit w k j hk hj = ground (
  arith,
  test_bit_lem (bit_and w (2 ^ 32 - 1 - 2 ^ k)) j,
  test_bit_lem w j,
  bit_at-bit_and w (2 ^ 32 - 1 - 2 ^ k) j,
  bit_at_mask 32 k j hk hj,
  bit_at-lt w j,
)

pub test_bit-zero : (k : ℕ) → test_bit 0 k ≡ false
test_bit-zero k = ground (arith, test_bit_lem 0 k, bit_at-zero k)
