-- ===== src/Base/Circular.antt =====
-- Arrays indexed modulo their capacity: the queues of kernel/network.c, kernel/ipc.c and
-- drivers/char_device.c, and the log buffer of kernel/monitor.c, all address `(head + k) % cap`.
use Prim.Native.Nat.{ℕ, zero, suc, ◌+◌, ◌-◌, ◌%◌, ◌≤◌, ◌<◌}
use mathlib.Core.Path.{◌≡◌, refl, ap, ap₂, sym, ◌∙◌}
use mathlib.Core.Logic.{◌≢◌}
use mathlib.Core.List.{List, [], ◌∷◌, ◌++◌}
use native.Mathlib.Nat.{mod-eq_of_lt, mod-eq-sub-mod, mod-add-mod}
use native.Mathlib.Decide.{dec_lt}
use native.Mathlib.Omega.{arith}
use minimalist_os.Base.Lists.{length, get_or, set, get_or-set_self, get_or-set_ne}

-- Two offsets below the capacity address different cells.
pub mod-add-ne :
    (cap h a b : ℕ) → h < cap → a < cap → b < cap → a ≢ b → (h + a) % cap ≢ (h + b) % cap
mod-add-ne cap h a b hh ha hb ne = elim (dec_lt (h + a) cap) [
  | yes p ↦ elim (dec_lt (h + b) cap) [
    | yes q ↦ omega (arith, mod-eq_of_lt p, mod-eq_of_lt q)
    | no q ↦ omega (
      arith,
      mod-eq_of_lt p,
      mod-eq-sub-mod {n = h + b} {m = cap} (omega arith),
      mod-eq_of_lt {n = h + b - cap} {m = cap} (omega arith),
    )
  ]
  | no p ↦ elim (dec_lt (h + b) cap) [
    | yes q ↦ omega (
      arith,
      mod-eq_of_lt q,
      mod-eq-sub-mod {n = h + a} {m = cap} (omega arith),
      mod-eq_of_lt {n = h + a - cap} {m = cap} (omega arith),
    )
    | no q ↦ omega (
      arith,
      mod-eq-sub-mod {n = h + a} {m = cap} (omega arith),
      mod-eq_of_lt {n = h + a - cap} {m = cap} (omega arith),
      mod-eq-sub-mod {n = h + b} {m = cap} (omega arith),
      mod-eq_of_lt {n = h + b - cap} {m = cap} (omega arith),
    )
  ]
]

module _ {ℓ} {A : Type ℓ} (d : A) (cap : ℕ) where
  -- The entry that stands `k` places after `h`.
  abbrev pub cell : List A → ℕ → ℕ → A
  cell buf h k = get_or buf ((h + k) % cap) d

  -- The `n` entries from the `k`-th on.
  abbrev pub slots : List A → ℕ → ℕ → ℕ → List A
  slots buf h k zero = []
  slots buf h k (suc n) = cell buf h k ∷ slots buf h (suc k) n

  pub length-slots : (buf : List A) (h k n : ℕ) → length (slots buf h k n) ≡ n
  length-slots buf h k zero = refl
  length-slots buf h k (suc n) = ap suc (length-slots buf h (suc k) n)

  -- Entries are equal if the cells are.
  pub slots-ext :
      (buf buf' : List A) (h h' k k' n : ℕ)
      → ((j : ℕ) → j < n → cell buf h (k + j) ≡ cell buf' h' (k' + j))
      → slots buf h k n ≡ slots buf' h' k' n
  slots-ext buf buf' h h' k k' zero same = refl
  slots-ext buf buf' h h' k k' (suc n) same =
      ap₂ ◌∷◌ (first (same 0 (omega arith)))
        (slots-ext buf buf' h h' (suc k) (suc k') n (λ j lt. later j (same (suc j) (omega arith))))
    where
      first : cell buf h (k + 0) ≡ cell buf' h' (k' + 0) → cell buf h k ≡ cell buf' h' k'
      first e = ap (cell buf h) (omega arith) ∙ e ∙ ap (cell buf' h') (omega arith)

      later :
          (j : ℕ)
          → cell buf h (k + suc j) ≡ cell buf' h' (k' + suc j)
          → cell buf h (suc k + j) ≡ cell buf' h' (suc k' + j)
      later j e = ap (cell buf h) (omega arith) ∙ e ∙ ap (cell buf' h') (omega arith)

  -- A range of entries is the range before its last one, and that one.
  pub slots_snoc :
      (buf : List A) (h k n : ℕ)
      → slots buf h k (suc n) ≡ slots buf h k n ++ (cell buf h (k + n) ∷ [])
  slots_snoc buf h k zero = ap (λ j. cell buf h j ∷ []) (omega arith)
  slots_snoc buf h k (suc n) =
      ap (λ ys. cell buf h k ∷ ys)
        (slots_snoc buf h (suc k) n
          ∙ ap (λ j. slots buf h (suc k) n ++ (cell buf h j ∷ [])) (omega arith))

  module _ (buf : List A) (h : ℕ) (v : A) (full : cap ≤ length buf) (hh : h < cap) where
    -- A write `i` places after `h` is read back there, and nowhere else.
    pub cell-set_self : (i : ℕ) → cell (set buf ((h + i) % cap) v) h i ≡ v
    cell-set_self i = get_or-set_self buf ((h + i) % cap) v d (omega arith)

    pub cell-set_ne :
        (i j : ℕ) → i < cap → j < cap → i ≢ j → cell (set buf ((h + i) % cap) v) h j ≡ cell buf h j
    cell-set_ne i j hi hj ne =
        get_or-set_ne buf ((h + i) % cap) ((h + j) % cap) v d (mod-add-ne cap h i j hh hi hj ne)

    -- A write just behind a range leaves the range alone.
    pub slots-set_end :
        (n : ℕ) → n < cap → slots (set buf ((h + n) % cap) v) h 0 n ≡ slots buf h 0 n
    slots-set_end n hn =
        slots-ext (set buf ((h + n) % cap) v) buf h h 0 0 n
          (λ j lt. cell-set_ne n (0 + j) hn (omega arith) (omega arith))

    -- A write just behind a queue's entries appends to them.
    pub slots-push :
        (n : ℕ)
        → n < cap
        → slots (set buf ((h + n) % cap) v) h 0 (suc n) ≡ slots buf h 0 n ++ (v ∷ [])
    slots-push n hn =
        slots_snoc (set buf ((h + n) % cap) v) h 0 n
        ∙ ap₂ (λ ys x. ys ++ (x ∷ [])) (slots-set_end n hn)
            (ap (cell (set buf ((h + n) % cap) v) h) (omega arith) ∙ cell-set_self n)

  -- Moving the head over one entry drops that entry.
  pub slots-pop : (buf : List A) (h n : ℕ) → slots buf h 1 n ≡ slots buf ((h + 1) % cap) 0 n
  slots-pop buf h n =
      slots-ext buf buf h ((h + 1) % cap) 1 0 n (λ j lt. ap (λ i. get_or buf i d) (turn j))
    where
      turn : (j : ℕ) → (h + (1 + j)) % cap ≡ ((h + 1) % cap + (0 + j)) % cap
      turn j = ap (λ i. i % cap) (omega arith) ∙ sym (mod-add-mod (h + 1) cap (0 + j))

  -- A queue that is not empty is its entry at the head and the queue behind the moved head.
  pub slots_step :
      (buf : List A) (h n : ℕ)
      → h < cap
      → n ≢ 0
      → slots buf h 0 n ≡ get_or buf h d ∷ slots buf ((h + 1) % cap) 0 (n - 1)
  slots_step buf h zero hh ne = absurd (ne refl)
  slots_step buf h (suc n) hh ne =
      ap₂ ◌∷◌ (ap (λ i. get_or buf i d) (ap (λ i. i % cap) (omega arith) ∙ mod-eq_of_lt hh))
        (slots-pop buf h n ∙ ap (slots buf ((h + 1) % cap) 0) (omega arith))
