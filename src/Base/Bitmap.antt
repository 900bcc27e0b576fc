-- ===== src/Base/Bitmap.antt =====
-- Allocation bitmaps: 32 entries to a word, as in kernel/memory.c and fs/filesystem_enhanced.c.
use Prim.Native.Nat.{ℕ, zero, suc, ◌+◌, ◌*◌, ◌/◌, ◌%◌, ◌≤◌, ◌<◌}
use mathlib.Core.Path.{◌≡◌, ap, ◌∙◌}
use mathlib.Core.Bool.{Bool, true, false}
use mathlib.Core.List.{List}
use mathlib.Core.Logic.{inl, inr}
use mathlib.Core.Option.{Option, none, some}
use native.Mathlib.Omega.{arith}
use native.Mathlib.Decide.{dec_le, dec_lt}
use minimalist_os.Base.Tests.{◌==◌, if◌then◌else◌, Bool-cases}
use minimalist_os.Base.Lists.{length, get_or, set, length-set, get_or-set_self, get_or-set_ne}
use minimalist_os.Base.Bits.{test_bit, set_bit, clear_bit, test_bit-set_bit, test_bit-clear_bit}

-- `bitmap[i / 32] & (1 << (i % 32))`
unfoldable pub is_used : List ℕ → ℕ → Bool
is_used bitmap i = test_bit (get_or bitmap (i / 32) 0) (i % 32)

-- `bitmap[i / 32] |= (1 << (i % 32))`
unfoldable pub mark_used : List ℕ → ℕ → List ℕ
mark_used bitmap i = set bitmap (i / 32) (set_bit (get_or bitmap (i / 32) 0) (i % 32))

-- `bitmap[i / 32] &= ~(1 << (i % 32))`
unfoldable pub mark_free : List ℕ → ℕ → List ℕ
mark_free bitmap i = set bitmap (i / 32) (clear_bit (get_or bitmap (i / 32) 0) (i % 32))

pub length-mark_used : (bitmap : List ℕ) (i : ℕ) → length (mark_used bitmap i) ≡ length bitmap
unfolding mark_used
length-mark_used bitmap i = length-set bitmap (i / 32) _

pub length-mark_free : (bitmap : List ℕ) (i : ℕ) → length (mark_free bitmap i) ≡ length bitmap
unfolding mark_free
length-mark_free bitmap i = length-set bitmap (i / 32) _

-- A write to a word is seen at the entries of that word only.
word-set :
    (bitmap : List ℕ) (v i j : ℕ)
    → i < length bitmap
    → get_or (set bitmap i v) j 0 ≡ (if i == j then v else get_or bitmap j 0)
word-set bitmap v i j h = elim (Bool-cases (i == j)) [
  | inl same ↦ rw same (
      ap (λ t. get_or (set bitmap i v) t 0) {x = j} {y = i} (ground arith)
      ∙ get_or-set_self bitmap i v 0 h)
  | inr other ↦ rw other (get_or-set_ne bitmap i j v 0 (ground arith))
]

pub is_used-mark_used :
    (bitmap : List ℕ) (i j : ℕ)
    → i < length bitmap * 32
    → is_used (mark_used bitmap i) j ≡ (if i == j then true else is_used bitmap j)
unfolding is_used mark_used
is_used-mark_used bitmap i j h =
    let w : ℕ = get_or bitmap (i / 32) 0 in
    ground (
      arith,
      word-set bitmap (set_bit w (i % 32)) (i / 32) (j / 32) (omega arith),
      test_bit-set_bit w (i % 32) (j % 32),
    )

pub is_used-mark_free :
    (bitmap : List ℕ) (i j : ℕ)
    → i < length bitmap * 32
    → is_used (mark_free bitmap i) j ≡ (if i == j then false else is_used bitmap j)
unfolding is_used mark_free
is_used-mark_free bitmap i j h =
    let w : ℕ = get_or bitmap (i / 32) 0 in
    ground (
      arith,
      word-set bitmap (clear_bit w (i % 32)) (i / 32) (j / 32) (omega arith),
      test_bit-clear_bit w (i % 32) (j % 32) (omega arith) (omega arith),
    )

-- The search that both allocators make: the first free entry of the `n` from `i` on.
unfoldable pub first_free : List ℕ → ℕ → ℕ → Option ℕ
first_free bitmap i zero = none
first_free bitmap i (suc n) =
    let rest = first_free bitmap (suc i) n in if is_used bitmap i then rest else some i

-- The number of used entries among the `n` from `i` on.
unfoldable pub count_used : List ℕ → ℕ → ℕ → ℕ
count_used bitmap i zero = 0
count_used bitmap i (suc n) = (if is_used bitmap i then 1 else 0) + count_used bitmap (suc i) n

pub count_used-le : (bitmap : List ℕ) (i n : ℕ) → count_used bitmap i n ≤ n
unfolding count_used
count_used-le bitmap i zero = omega arith
count_used-le bitmap i (suc n) = ground (arith, count_used-le bitmap (suc i) n)

-- What a search that succeeds says of the entry found.
pub record IsFirst (bitmap : List ℕ) (i n k : ℕ) : Type 0 where
  pub from : i ≤ k
  pub below : k < i + n
  pub free : is_used bitmap k ≡ false
  pub lowest : (j : ℕ) → i ≤ j → j < k → is_used bitmap j ≡ true

pub first_free-IsFirst :
    (bitmap : List ℕ) (i n : ℕ) {k : ℕ} → first_free bitmap i n ≡ some k → IsFirst bitmap i n k
unfolding first_free
first_free-IsFirst bitmap i zero h = ground arith
first_free-IsFirst bitmap i (suc n) {k} h = elim (Bool-cases (is_used bitmap i)) [
  | inl used ↦ later used (first_free-IsFirst bitmap (suc i) n (rw used at h))
  | inr free ↦ now free (rw free at h)
]
  where
    later : is_used bitmap i ≡ true → IsFirst bitmap (suc i) n k → IsFirst bitmap i (suc n) k
    later used f = record {
      from = omega (arith, f.from);
      below = omega (arith, f.below);
      free = f.free;
      lowest = λ j le lt. elim (Bool-cases (i == j)) [
        | inl same ↦ let e : i ≡ j = ground arith in rw (← e) used
        | inr other ↦ f.lowest j (ground arith) lt
      ];
    }

    now : is_used bitmap i ≡ false → some i ≡ some k → IsFirst bitmap i (suc n) k
    now free h =
        let e : i ≡ k = ground arith in
        record {
          from = omega arith;
          below = omega arith;
          free = rw (← e) free;
          lowest = λ j le lt. absurd (omega arith);
        }

pub first_free-none :
    (bitmap : List ℕ) (i n : ℕ)
    → first_free bitmap i n ≡ none
    → (j : ℕ) → i ≤ j
    → j < i + n
    → is_used bitmap j ≡ true
unfolding first_free
first_free-none bitmap i zero h j le lt = absurd (omega arith)
first_free-none bitmap i (suc n) h j le lt = elim (Bool-cases (i == j)) [
  | inl same ↦ let e : i ≡ j = ground arith in rw (← e) (ground arith)
  | inr other ↦ first_free-none bitmap (suc i) n (ground arith) j (ground arith) (omega arith)
]

-- Does the range of `n` entries from `i` on hold `k`?
abbrev pub one_inside : ℕ → ℕ → ℕ → ℕ
one_inside k i n = elim (dec_le i k) [
  | yes p ↦ (elim (dec_lt k (i + n)) [ yes q ↦ 1 | no q ↦ 0 ])
  | no p ↦ 0
]

module _ (bitmap : List ℕ) (k : ℕ) (h : k < length bitmap * 32) where
  -- Marking a free entry adds one to the count of a range that holds it.
  pub count_used-mark_used :
      (i n : ℕ)
      → is_used bitmap k ≡ false
      → count_used (mark_used bitmap k) i n ≡ count_used bitmap i n + one_inside k i n
  unfolding count_used
  count_used-mark_used i zero f = ground arith
  count_used-mark_used i (suc n) f =
      ground (arith, is_used-mark_used bitmap k i h, count_used-mark_used (suc i) n f)

  -- Freeing a used entry takes one off.
  pub count_used-mark_free :
      (i n : ℕ)
      → is_used bitmap k ≡ true
      → count_used (mark_free bitmap k) i n + one_inside k i n ≡ count_used bitmap i n
  unfolding count_used
  count_used-mark_free i zero f = ground arith
  count_used-mark_free i (suc n) f =
      ground (arith, is_used-mark_free bitmap k i h, count_used-mark_free (suc i) n f)

-- The count depends only on which entries are used.
pub count_used-ext :
    (b c : List ℕ) (i n : ℕ)
    → ((j : ℕ) → is_used b j ≡ is_used c j)
    → count_used b i n ≡ count_used c i n
unfolding count_used
count_used-ext b c i zero same = omega arith
count_used-ext b c i (suc n) same = ground (arith, same i, count_used-ext b c (suc i) n same)
