-- ===== src/Devices/Chain.antt =====
-- The list of devices that the pointers of the nodes form.
use Prim.{Unit}
use mathlib.Core.Path.{subst}
use mathlib.Core.Option.{map}
use minimalist_os.Base.{
  ℕ, zero, suc, ◌+◌, ◌*◌, ◌/◌, ◌<◌, ◌≡◌, ◌≢◌, ◌⊎◌, refl, sym, ap, ◌∙◌, List, [], ◌∷◌, Bool, true,
  false, Option, none, some, ◌==◌, if◌then◌else◌, arith, length, inl, inr, Bool-cases,
}
use minimalist_os.Base.Bitmap.{is_used}
use minimalist_os.Memory.{Memory, max_pages, page_size}
use minimalist_os.Devices.{DeviceInfo, Node, find_node}

-- A device of the list: the address of its page, and its entry.
abbrev pub Entry : Type 0 → Type 0
Entry D = ℕ × DeviceInfo D

-- `p` points to the first of these devices, and each points to the next.
abbrev pub Chain : {D : Type 0} → (ℕ → Node D) → ℕ → List (Entry D) → Type 0
Chain nodes p [] = p ≡ 0
Chain nodes p ((a, d) ∷ ds) =
    (p ≡ a) × (a ≢ 0) × ((nodes a).info ≡ d) × Chain nodes (nodes a).next ds

-- No device of the list has this address.
abbrev pub Apart : {D : Type 0} → ℕ → List (Entry D) → Type 0
Apart a [] = Unit
Apart a ((b, d) ∷ ds) = (a ≢ b) × Apart a ds

abbrev pub Distinct : {D : Type 0} → List (Entry D) → Type 0
Distinct [] = Unit
Distinct ((a, d) ∷ ds) = Apart a ds × Distinct ds

-- An address is that of a page which the allocator has handed out: not page 0.
pub record IsPage (m : Memory) (a : ℕ) : Type 0 where
  pub aligned : a ≡ a / page_size * page_size
  pub not_first : a / page_size ≢ 0
  pub in_range : a / page_size < max_pages
  pub used : is_used m.page_bitmap (a / page_size) ≡ true

abbrev pub InPages : {D : Type 0} → Memory → List (Entry D) → Type 0
InPages m [] = Unit
InPages m ((a, d) ∷ ds) = IsPage m a × InPages m ds

pub entry_address :
    {D : Type 0} (a : ℕ) (d : DeviceInfo D) (e : Entry D) → some (a, d) ≡ some e → a ≡ e.0
entry_address {D = D} a d e same = ap (λ o. address_or a o) same
  where
    address_or : ℕ → Option (Entry D) → ℕ
    address_or b none = b
    address_or b (some x) = x.0

module _ {D : Type 0} (test : DeviceInfo D → Bool) where
  -- The first device that passes a test, and the list without it.
  abbrev pub first_match : List (Entry D) → Option (Entry D)
  first_match [] = none
  first_match ((a, d) ∷ ds) = if test d then some (a, d) else first_match ds

  abbrev pub remove_first : List (Entry D) → List (Entry D)
  remove_first [] = []
  remove_first ((a, d) ∷ ds) = if test d then ds else (a, d) ∷ remove_first ds

  pub find_node-Chain :
      (nodes : ℕ → Node D) (fuel p : ℕ) (ds : List (Entry D))
      → Chain nodes p ds
      → length ds < fuel
      → find_node test nodes fuel p ≡ map (λ e. e.0) (first_match ds)
  unfolding find_node
  find_node-Chain nodes zero p ds chain enough = absurd (omega arith)
  find_node-Chain nodes (suc fuel) p [] null enough = rw null refl
  find_node-Chain nodes (suc fuel) p ((a, d) ∷ ds) (here, real, info, rest) enough =
      let ih = find_node-Chain nodes fuel (nodes a).next ds rest (omega arith) in
      let other : (a == 0) ≡ false = ground arith in
      elim (Bool-cases (test d)) [
        | inl hit ↦ rw (here, other, info, hit) refl
        | inr miss ↦ rw (here, other, info, miss) ih
      ]

  -- Where a search that succeeds has found its device.
  pub first_match-cases :
      (a : ℕ) (d : DeviceInfo D) (ds : List (Entry D)) (e : Entry D)
      → first_match ((a, d) ∷ ds) ≡ some e
      → (test d ≡ true) × (some (a, d) ≡ some e) ⊎ (test d ≡ false) × (first_match ds ≡ some e)
  first_match-cases a d ds e found = elim (Bool-cases (test d)) [
    | inl hit ↦
        let step : first_match ((a, d) ∷ ds) ≡ some (a, d) = rw hit refl in
        inl (hit, sym step ∙ found)
    | inr miss ↦
        let step : first_match ((a, d) ∷ ds) ≡ first_match ds = rw miss refl in
        inr (miss, sym step ∙ found)
  ]

  pub length-remove_first :
      (ds : List (Entry D)) (e : Entry D)
      → first_match ds ≡ some e
      → length (remove_first ds) + 1 ≡ length ds
  length-remove_first [] e found = cc found
  length-remove_first ((a, d) ∷ ds) e found = elim (first_match-cases a d ds e found) [
    | inl (hit, _) ↦ rw hit (omega arith)
    | inr (miss, more) ↦ rw miss (omega (arith, length-remove_first ds e more))
  ]

  pub Apart-remove_first : (b : ℕ) (ds : List (Entry D)) → Apart b ds → Apart b (remove_first ds)
  Apart-remove_first b [] apart = apart
  Apart-remove_first b ((a, d) ∷ ds) (ne, apart) = elim (Bool-cases (test d)) [
    | inl hit ↦ rw hit apart
    | inr miss ↦ rw miss (ne, Apart-remove_first b ds apart)
  ]

  Apart-first_match :
      (b : ℕ) (ds : List (Entry D)) (e : Entry D) → Apart b ds → first_match ds ≡ some e → b ≢ e.0
  Apart-first_match b [] e apart found = cc found
  Apart-first_match b ((a, d) ∷ ds) e (ne, apart) found = elim (first_match-cases a d ds e found) [
    | inl (_, same) ↦ λ q. ne (q ∙ sym (entry_address a d e same))
    | inr (_, more) ↦ Apart-first_match b ds e apart more
  ]

  pub Distinct-remove_first : (ds : List (Entry D)) → Distinct ds → Distinct (remove_first ds)
  Distinct-remove_first [] distinct = distinct
  Distinct-remove_first ((a, d) ∷ ds) (apart, distinct) = elim (Bool-cases (test d)) [
    | inl hit ↦ rw hit distinct
    | inr miss ↦ rw miss (Apart-remove_first a ds apart, Distinct-remove_first ds distinct)
  ]

  -- A device that was removed is gone.
  pub removed-Apart :
      (ds : List (Entry D)) (e : Entry D)
      → Distinct ds
      → first_match ds ≡ some e
      → Apart e.0 (remove_first ds)
  removed-Apart [] e distinct found = record {}
  removed-Apart ((a, d) ∷ ds) e (apart, distinct) found = elim (first_match-cases a d ds e found) [
    | inl (hit, same) ↦ rw hit (subst (λ b. Apart b ds) (entry_address a d e same) apart)
    | inr (miss, more) ↦
        rw miss (λ q. Apart-first_match a ds e apart more (sym q), removed-Apart ds e distinct more)
  ]

  pub InPages-remove_first :
      (m : Memory) (ds : List (Entry D)) → InPages m ds → InPages m (remove_first ds)
  InPages-remove_first m [] pages = pages
  InPages-remove_first m ((a, d) ∷ ds) (page, pages) = elim (Bool-cases (test d)) [
    | inl hit ↦ rw hit pages
    | inr miss ↦ rw miss (page, InPages-remove_first m ds pages)
  ]

  pub first_match-IsPage :
      (m : Memory) (ds : List (Entry D)) (e : Entry D)
      → InPages m ds
      → first_match ds ≡ some e
      → IsPage m e.0
  first_match-IsPage m [] e pages found = cc found
  first_match-IsPage m ((a, d) ∷ ds) e (page, pages) found =
      elim (first_match-cases a d ds e found) [
        | inl (_, same) ↦ subst (λ b. IsPage m b) (entry_address a d e same) page
        | inr (_, more) ↦ first_match-IsPage m ds e pages more
      ]
