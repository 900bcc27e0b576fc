-- ===== src/Base/Search.antt =====
-- The loop `for (i = ..; i < ..; i++) if (test(table[i])) ...` over a table: many of the kernel's
-- tables are searched for the first entry that passes a test.
use Prim.Native.Nat.{ℕ, zero, suc, ◌+◌, ◌≤◌, ◌<◌}
use mathlib.Core.Path.{◌≡◌, refl, ap, ◌∙◌, subst}
use mathlib.Core.Logic.{inl, inr}
use mathlib.Core.Bool.{Bool, true, false}
use mathlib.Core.Option.{Option, none, some}
use mathlib.Core.List.{List}
use native.Mathlib.Omega.{arith}
use minimalist_os.Base.Tests.{if◌then◌else◌, ◌==◌, Bool-cases}
use minimalist_os.Base.Lists.{get_or, set, length, get_or-set_self, get_or-set_ne}

module _ {ℓ} {A : Type ℓ} where
  -- `n` entries are left, from the `i`-th on; `d` stands for a read past the table.
  unfoldable pub find_index : (A → Bool) → A → List A → ℕ → ℕ → Option ℕ
  find_index test d table i zero = none
  find_index test d table i (suc n) =
      let rest = find_index test d table (suc i) n in
      if test (get_or table i d) then some i else rest

  -- What a search that stops at `k` says.
  pub record Found (test : A → Bool) (d : A) (table : List A) (i n k : ℕ) : Type ℓ where
    pub from : i ≤ k
    pub below : k < i + n
    pub passes : test (get_or table k d) ≡ true
    pub first : (j : ℕ) → i ≤ j → j < k → test (get_or table j d) ≡ false

  module _ (test : A → Bool) (d : A) (table : List A) where
    Found-later :
        (i n k : ℕ)
        → test (get_or table i d) ≡ false
        → Found test d table (suc i) n k
        → Found test d table i (suc n) k
    Found-later i n k miss f = record {
      from = omega (arith, f.from);
      below = omega (arith, f.below);
      passes = f.passes;
      first = λ j le lt. elim (Bool-cases (i == j)) [
        | inl same ↦ ap (λ t. test (get_or table t d)) {x = j} {y = i} (ground arith) ∙ miss
        | inr other ↦ f.first j (ground arith) lt
      ];
    }

    Found-now : (i n : ℕ) → test (get_or table i d) ≡ true → Found test d table i (suc n) i
    Found-now i n hit = record {
      from = omega arith;
      below = omega arith;
      passes = hit;
      first = λ j le lt. absurd (omega arith);
    }

    pub find_index-Found :
        (i n k : ℕ) → find_index test d table i n ≡ some k → Found test d table i n k
    unfolding find_index
    find_index-Found i zero k h = absurd (cc h)
    find_index-Found i (suc n) k h = elim (Bool-cases (test (get_or table i d))) [
      | inl hit ↦
          let e : i ≡ k = ground arith in
          subst (λ t. Found test d table i (suc n) t) e (Found-now i n hit)
      | inr miss ↦ Found-later i n k miss (find_index-Found (suc i) n k (rw miss at h))
    ]

    pub find_index-none :
        (i n : ℕ)
        → find_index test d table i n ≡ none
        → (j : ℕ) → i ≤ j
        → j < i + n
        → test (get_or table j d) ≡ false
    unfolding find_index
    find_index-none i zero h j le lt = absurd (omega arith)
    find_index-none i (suc n) h j le lt = elim (Bool-cases (i == j)) [
      | inl same ↦
          let e : i ≡ j = ground arith in
          ap (λ t. test (get_or table t d)) {x = j} {y = i} (omega arith) ∙ ground arith
      | inr other ↦ find_index-none (suc i) n (ground arith) j (ground arith) (omega arith)
    ]

    -- The first entry that passes is the one that is found.
    pub find_index_of :
        (i n k : ℕ)
        → i ≤ k
        → k < i + n
        → test (get_or table k d) ≡ true
        → ((j : ℕ) → i ≤ j → j < k → test (get_or table j d) ≡ false)
        → find_index test d table i n ≡ some k
    unfolding find_index
    find_index_of i zero k le lt hit before = absurd (omega arith)
    find_index_of i (suc n) k le lt hit before = elim (Bool-cases (i == k)) [
      | inl same ↦
          let e : i ≡ k = ground arith in
          let now : test (get_or table i d) ≡ true = ap (λ t. test (get_or table t d)) e ∙ hit in
          rw now (ap some e)
      | inr other ↦
          let miss : test (get_or table i d) ≡ false = before i (omega arith) (ground arith) in
          rw miss (
            find_index_of (suc i) n k (ground arith) (omega arith) hit
              (λ j lo hi. before j (omega arith) hi))
    ]

    pub find_index-none_of :
        (i n : ℕ)
        → ((j : ℕ) → i ≤ j → j < i + n → test (get_or table j d) ≡ false)
        → find_index test d table i n ≡ none
    unfolding find_index
    find_index-none_of i zero all = refl
    find_index-none_of i (suc n) all =
        let miss : test (get_or table i d) ≡ false = all i (omega arith) (omega arith) in
        rw miss (find_index-none_of (suc i) n (λ j lo hi. all j (omega arith) (omega arith)))

  -- A write into a table in `if` form.
  pub get_or-set :
      (table : List A) (i j : ℕ) (v d : A)
      → i < length table
      → get_or (set table i v) j d ≡ (if i == j then v else get_or table j d)
  get_or-set table i j v d h = elim (Bool-cases (i == j)) [
    | inl same ↦ rw same (
        ap (λ t. get_or (set table i v) t d) {x = j} {y = i} (ground arith)
        ∙ get_or-set_self table i v d h)
    | inr other ↦ rw other (get_or-set_ne table i j v d (ground arith))
  ]
