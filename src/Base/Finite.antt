-- ===== src/Base/Finite.antt =====
-- A property of the first `n` numbers, decided by trying each of them.
use Prim.Native.Nat.{ℕ, zero, suc, ◌<◌}
use mathlib.Core.Path.{◌≡◌, ap, ◌∙◌}
use mathlib.Core.Logic.{inl, inr}
use mathlib.Core.Bool.{Bool, true, ◌&&◌}
use native.Mathlib.Omega.{arith}
use minimalist_os.Base.Tests.{◌==◌, Bool-cases}

abbrev pub all_below : ℕ → (ℕ → Bool) → Bool
all_below zero test = true
all_below (suc n) test = test n && all_below n test

pub all_below-get : (n k : ℕ) (test : ℕ → Bool) → all_below n test ≡ true → k < n → test k ≡ true
all_below-get zero k test h lt = absurd (omega arith)
all_below-get (suc n) k test h lt = elim (Bool-cases (k == n)) [
  | inl same ↦ ap test {x = k} {y = n} (ground arith) ∙ ground arith
  | inr other ↦ all_below-get n k test (ground arith) (ground arith)
]
