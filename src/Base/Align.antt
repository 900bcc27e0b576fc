-- ===== src/Base/Align.antt =====
-- Aligned addresses: `x & ~(alignment - 1)`, and addresses with flags in their low bits.
use Prim.Native.Nat.{ℕ, zero, suc, ◌+◌, ◌-◌, ◌*◌, ◌/◌, ◌^◌, ◌≤◌, ◌<◌, bit_and, bit_or}
use mathlib.Core.Path.{◌≡◌, refl, ap}
use native.Mathlib.Nat.{pow-suc}
use native.Mathlib.Omega.{arith}
use minimalist_os.Base.Bits.{and_step, or_step, pow_pos, bit_and-zero}

-- `x & ~(2 ^ k - 1)`, by which an address is aligned: on `n` bits it is the multiple of `2 ^ k`
-- at or below `x`.
pub record IsAligned (x k r : ℕ) : Type 0 where
  pub quotient : ℕ
  pub multiple : r ≡ quotient * 2 ^ k
  pub below : r ≤ x
  pub near : x < r + 2 ^ k

and_ones : (n x : ℕ) → x < 2 ^ n → bit_and x (2 ^ n - 1) ≡ x
and_ones zero x h =
    omega (arith, bit_and-zero x x (omega arith), ap (λ t. bit_and t 0) (zero_of x h))
  where
    zero_of : (x : ℕ) → x < 2 ^ 0 → x ≡ 0
    zero_of x h = omega arith
and_ones (suc n) x h = omega (
  arith,
  and_step x (2 ^ suc n - 1),
  pow_pos n,
  pow-suc 2 n,
  ap (bit_and (x / 2)) {x = (2 ^ suc n - 1) / 2} {y = 2 ^ n - 1}
      (omega (arith, pow_pos n, pow-suc 2 n)),
  and_ones n (x / 2) (omega (arith, pow-suc 2 n)),
)

align_down : ℕ → ℕ → ℕ
align_down zero x = x
align_down (suc k) x = align_down k (x / 2) * 2

pub pow_le : (k n : ℕ) → k ≤ n → 2 ^ k ≤ 2 ^ n
pow_le zero n h = pow_pos n
pow_le (suc k) zero h = absurd (omega arith)
pow_le (suc k) (suc n) h = omega (arith, pow_le k n (omega arith), pow-suc 2 n, pow-suc 2 k)

and_align : (n k x : ℕ) → k ≤ n → x < 2 ^ n → bit_and x (2 ^ n - 2 ^ k) ≡ align_down k x
unfolding align_down
and_align n zero x h g = and_ones n x g
and_align zero (suc k) x h g = absurd (omega arith)
and_align (suc n) (suc k) x h g = omega (
  arith,
  and_step x (2 ^ suc n - 2 ^ suc k),
  pow-suc 2 n,
  pow-suc 2 k,
  pow_le k n (omega arith),
  ap (bit_and (x / 2)) {x = (2 ^ suc n - 2 ^ suc k) / 2} {y = 2 ^ n - 2 ^ k}
      (omega (arith, pow-suc 2 n, pow-suc 2 k, pow_le k n (omega arith))),
  and_align n k (x / 2) (omega arith) (omega (arith, pow-suc 2 n)),
)

align_down-IsAligned : (k x : ℕ) → IsAligned x k (align_down k x)
unfolding align_down
align_down-IsAligned zero x = record {
  quotient = x;
  multiple = omega arith;
  below = omega arith;
  near = omega arith;
}
align_down-IsAligned (suc k) x =
    let half = align_down-IsAligned k (x / 2) in
    record {
      quotient = half.quotient;
      multiple = omega (arith, half.multiple, ap (λ t. half.quotient * t) (pow-suc 2 k));
      below = omega (arith, half.below);
      near = omega (arith, half.near, pow-suc 2 k);
    }

pub bit_and-IsAligned : (n k x : ℕ) → k ≤ n → x < 2 ^ n → IsAligned x k (bit_and x (2 ^ n - 2 ^ k))
bit_and-IsAligned n k x h g = rw (and_align n k x h g) (align_down-IsAligned k x)

-- Flags below `2 ^ n` are added to an address that is a multiple of it.
pub bit_or-add : (n q f : ℕ) → f < 2 ^ n → bit_or (q * 2 ^ n) f ≡ q * 2 ^ n + f
bit_or-add zero q f h =
    omega
      (arith, ap (bit_or (q * 2 ^ 0)) (zero_of f h), or_zero (q * 2 ^ 0) (q * 2 ^ 0) (omega arith))
  where
    zero_of : (x : ℕ) → x < 2 ^ 0 → x ≡ 0
    zero_of x h = omega arith

    or_zero : (n w : ℕ) → w ≤ n → bit_or w 0 ≡ w
    or_zero n zero h = refl
    or_zero zero (suc w) h = absurd (omega arith)
    or_zero (suc n) (suc w) h =
        omega (arith, or_step (suc w) 0, or_zero n (suc w / 2) (omega arith))
bit_or-add (suc n) q f h = omega (
  arith,
  or_step (q * 2 ^ suc n) f,
  ap (λ t. q * t) (pow-suc 2 n),
  ap (λ t. bit_or t (f / 2)) {x = q * 2 ^ suc n / 2} {y = q * 2 ^ n}
      (omega (arith, ap (λ t. q * t) (pow-suc 2 n))),
  bit_or-add n q (f / 2) (omega (arith, pow-suc 2 n)),
)
