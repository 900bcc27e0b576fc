-- ===== src/Base/Copy.antt =====
-- `memcpy(base + offset, src, n)` into an array, and what a later read of a range sees.
use Prim.Native.Nat.{ℕ, zero, suc, ◌+◌, ◌≤◌}
use mathlib.Core.Path.{◌≡◌, refl, sym, ap, ◌∙◌}
use mathlib.Core.List.{List, [], ◌∷◌, ◌++◌}
use native.Mathlib.Omega.{arith}
use minimalist_os.Base.Lists.{length, take, drop}

module _ {ℓ} {A : Type ℓ} where
  -- Bytes past the end of either array are not touched.
  unfoldable pub copy_at : List A → ℕ → List A → ℕ → List A
  copy_at [] offset src n = []
  copy_at (x ∷ block) (suc offset) src n = x ∷ copy_at block offset src n
  copy_at (x ∷ block) zero src zero = x ∷ block
  copy_at (x ∷ block) zero [] (suc n) = x ∷ block
  copy_at (x ∷ block) zero (c ∷ src) (suc n) = c ∷ copy_at block zero src n

  -- The `n` entries from an offset on.
  abbrev pub slice : List A → ℕ → ℕ → List A
  slice block offset n = take n (drop offset block)

  pub length-copy_at :
      (block : List A) (offset : ℕ) (src : List A) (n : ℕ)
      → length (copy_at block offset src n) ≡ length block
  unfolding copy_at
  length-copy_at [] offset src n = refl
  length-copy_at (x ∷ block) (suc offset) src n = ap suc (length-copy_at block offset src n)
  length-copy_at (x ∷ block) zero src zero = refl
  length-copy_at (x ∷ block) zero [] (suc n) = refl
  length-copy_at (x ∷ block) zero (c ∷ src) (suc n) = ap suc (length-copy_at block zero src n)

  -- The range that was written.
  pub slice-copy_at_self :
      (block : List A) (offset : ℕ) (src : List A) (n : ℕ)
      → offset + n ≤ length block
      → n ≤ length src
      → slice (copy_at block offset src n) offset n ≡ take n src
  unfolding copy_at
  slice-copy_at_self block offset src zero h k = refl
  slice-copy_at_self [] offset src (suc n) h k = absurd (omega arith)
  slice-copy_at_self (x ∷ block) (suc offset) src (suc n) h k =
      slice-copy_at_self block offset src (suc n) (omega arith) k
  slice-copy_at_self (x ∷ block) zero [] (suc n) h k = absurd (omega arith)
  slice-copy_at_self (x ∷ block) zero (c ∷ src) (suc n) h k =
      ap (λ ys. c ∷ ys) (slice-copy_at_self block zero src n (omega arith) (omega arith))

  -- A range below the one that was written.
  pub slice-copy_at_below :
      (block : List A) (offset : ℕ) (src : List A) (n from m : ℕ)
      → from + m ≤ offset
      → slice (copy_at block offset src n) from m ≡ slice block from m
  unfolding copy_at
  slice-copy_at_below [] offset src n from m h = refl
  slice-copy_at_below (x ∷ block) zero src n from zero h = refl
  slice-copy_at_below (x ∷ block) zero src n from (suc m) h = absurd (omega arith)
  slice-copy_at_below (x ∷ block) (suc offset) src n zero zero h = refl
  slice-copy_at_below (x ∷ block) (suc offset) src n zero (suc m) h =
      ap (λ ys. x ∷ ys) (slice-copy_at_below block offset src n zero m (omega arith))
  slice-copy_at_below (x ∷ block) (suc offset) src n (suc from) m h =
      slice-copy_at_below block offset src n from m (omega arith)

  -- A range above it.
  pub slice-copy_at_above :
      (block : List A) (offset : ℕ) (src : List A) (n from m : ℕ)
      → offset + n ≤ from
      → slice (copy_at block offset src n) from m ≡ slice block from m
  unfolding copy_at
  slice-copy_at_above [] offset src n from m h = refl
  slice-copy_at_above (x ∷ block) (suc offset) src n zero m h = absurd (omega arith)
  slice-copy_at_above (x ∷ block) (suc offset) src n (suc from) m h =
      slice-copy_at_above block offset src n from m (omega arith)
  slice-copy_at_above (x ∷ block) zero src zero from m h = refl
  slice-copy_at_above (x ∷ block) zero [] (suc n) from m h = refl
  slice-copy_at_above (x ∷ block) zero (c ∷ src) (suc n) zero m h = absurd (omega arith)
  slice-copy_at_above (x ∷ block) zero (c ∷ src) (suc n) (suc from) m h =
      slice-copy_at_above block zero src n from m (omega arith)

  take-nil : (m : ℕ) → take {A = A} m [] ≡ []
  take-nil zero = refl
  take-nil (suc m) = refl

  take-split : (m n k : ℕ) (xs : List A) → k ≡ m + n → take k xs ≡ take m xs ++ take n (drop m xs)
  take-split zero n k xs e = ap (λ j. take j xs) {x = k} {y = n} (omega (arith, e))
  take-split (suc m) n k [] e = take-nil k ∙ sym (take-nil n)
  take-split (suc m) n zero (x ∷ xs) e = absurd (omega (arith, e))
  take-split (suc m) n (suc k) (x ∷ xs) e =
      ap (λ ys. x ∷ ys) (take-split m n k xs (omega (arith, e)))

  drop-drop : (a m k : ℕ) (xs : List A) → k ≡ a + m → drop m (drop a xs) ≡ drop k xs
  drop-drop zero m k xs e = ap (λ j. drop j xs) {x = m} {y = k} (omega (arith, e))
  drop-drop (suc a) zero zero [] e = absurd (omega (arith, e))
  drop-drop (suc a) zero (suc k) [] e = refl
  drop-drop (suc a) (suc m) zero [] e = absurd (omega (arith, e))
  drop-drop (suc a) (suc m) (suc k) [] e = refl
  drop-drop (suc a) m zero (x ∷ xs) e = absurd (omega (arith, e))
  drop-drop (suc a) m (suc k) (x ∷ xs) e = drop-drop a m k xs (omega (arith, e))

  -- A range is its first part and then the rest.
  pub slice-split :
      (xs : List A) (a m n : ℕ) → slice xs a (m + n) ≡ slice xs a m ++ slice xs (a + m) n
  slice-split xs a m n =
      take-split m n (m + n) (drop a xs) refl
      ∙ ap (λ ys. take m (drop a xs) ++ take n ys) (drop-drop a m (a + m) xs refl)
