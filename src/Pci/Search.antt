-- ===== src/Pci/Search.antt =====
-- The search of `pci_find_device`, which leaves a slot when its first function is missing, and a plain
-- search of all 256 functions.
use minimalist_os.Base.{
  ℕ, zero, suc, ◌+◌, ◌*◌, ◌/◌, ◌%◌, ◌≤◌, ◌<◌, ◌≡◌, refl, sym, ap, ◌∙◌, Bool, true, false, not, ◌&&◌,
  inl, inr, Option, none, some, success, failure, ◌==◌, if◌then◌else◌, arith, Bool-cases,
  Option-cases,
}
use minimalist_os.Pci.{
  PciDevice, pci_read_config_word, scan_functions, scan_slots, found_device, pci_find_device,
}

-- The first of `n` numbers from `i` on that passes a test.
pub first : (ℕ → Bool) → ℕ → ℕ → Option ℕ
first test i zero = none
first test i (suc n) = let rest = first test (suc i) n in if test i then some i else rest

nothing : {k : ℕ} → none ≡ some k → ⊥
nothing h = absurd (cc h)

number : {j k : ℕ} → some j ≡ some k → j ≡ k
number h = cc h

second : Option (ℕ × ℕ) → ℕ
second none = 0
second (some (i, j)) = j

first-split :
    (test : ℕ → Bool) (i a b n : ℕ)
    → n ≡ a + b
    → first test i n ≡ elim (first test i a) [ some k ↦ some k | none ↦ first test (i + a) b ]
unfolding first
first-split test i zero b n e =
    ap (λ m. first test i m) {x = n} {y = b} (omega (arith, e))
    ∙ ap (λ j. first test j b) {x = i} {y = i + 0} (omega arith)
first-split test i (suc a) b zero e = absurd (omega (arith, e))
first-split test i (suc a) b (suc n) e = elim (Bool-cases (test i)) [
  | inl hit ↦ rw hit refl
  | inr miss ↦ rw miss (
      first-split test (suc i) a b n (omega (arith, e))
      ∙ ap (λ j. elim (first test (suc i) a) [ some k ↦ some k | none ↦ first test j b ])
          {x = suc i + a} {y = i + suc a} (omega arith))
]

first-none :
    (test : ℕ → Bool) (i n : ℕ)
    → ((j : ℕ) → i ≤ j → j < i + n → test j ≡ false)
    → first test i n ≡ none
unfolding first
first-none test i zero all = refl
first-none test i (suc n) all =
    let miss = all i (omega arith) (omega arith) in
    rw miss (first-none test (suc i) n (λ j lo hi. all j (omega arith) (omega arith)))

module _ (config : ℕ → ℕ) (vendor device : ℕ) where
  -- The slot has a function 0, and this function has the two numbers.
  pub is_match : ℕ → ℕ → Bool
  is_match slot func =
      let v = pci_read_config_word config 0 slot func 0x00 in
      let d = pci_read_config_word config 0 slot func 0x02 in
      not (pci_read_config_word config 0 slot 0 0x00 == 0xFFFF)
      && not (v == 0xFFFF)
      && (v == vendor)
      && (d == device)

  -- The functions of all slots in a row.
  pub matches : ℕ → Bool
  matches k = is_match (k / 8) (k % 8)

  matches-place : (slot func : ℕ) → func < 8 → matches (slot * 8 + func) ≡ is_match slot func
  unfolding matches
  matches-place slot func h =
      ap (λ k. is_match k ((slot * 8 + func) % 8)) {x = (slot * 8 + func) / 8} {y = slot}
        (omega arith)
      ∙ ap (is_match slot) {x = (slot * 8 + func) % 8} {y = func} (omega arith)

  module _ (slot func : ℕ) where
    is_match-missing :
        (pci_read_config_word config 0 slot func 0x00 == 0xFFFF) ≡ true → is_match slot func ≡ false
    unfolding is_match
    is_match-missing missing =
        elim (Bool-cases (pci_read_config_word config 0 slot 0 0x00 == 0xFFFF)) [
          | inl empty ↦ rw (empty, is_match) refl
          | inr there ↦ rw (there, missing, is_match) refl
        ]

    is_match-present :
        (pci_read_config_word config 0 slot 0 0x00 == 0xFFFF) ≡ false
        → (pci_read_config_word config 0 slot func 0x00 == 0xFFFF) ≡ false
        → is_match slot func ≡ (
            (pci_read_config_word config 0 slot func 0x00 == vendor)
            && (pci_read_config_word config 0 slot func 0x02 == device))
    unfolding is_match
    is_match-present there present = rw (there, present) refl

    is_match-empty :
        (pci_read_config_word config 0 slot 0 0x00 == 0xFFFF) ≡ true → is_match slot func ≡ false
    unfolding is_match
    is_match-empty empty = rw empty refl

    not_first :
        (pci_read_config_word config 0 slot 0 0x00 == 0xFFFF) ≡ false
        → (pci_read_config_word config 0 slot func 0x00 == 0xFFFF) ≡ true
        → (func == 0) ≡ false
    not_first there missing = elim (Bool-cases (func == 0)) [
      | inr inner ↦ inner
      | inl zeroth ↦
          let e : 0 ≡ func = ground arith in
          let same = ap (λ f. pci_read_config_word config 0 slot f 0x00 == 0xFFFF) e in
          absurd (cc (sym there ∙ same ∙ missing))
    ]

  -- A slot whose function 0 is there.
  scan_functions-first :
      (slot func n : ℕ)
      → (pci_read_config_word config 0 slot 0 0x00 == 0xFFFF) ≡ false
      → func + n ≤ 8
      → first matches (slot * 8 + func) n ≡ elim (scan_functions config vendor device slot func n) [
        | some k ↦ some (slot * 8 + k)
        | none ↦ none
      ]
  unfolding first scan_functions
  scan_functions-first slot func zero there h = refl
  scan_functions-first slot func (suc n) there h =
      let v = pci_read_config_word config 0 slot func 0x00 in
      let d = pci_read_config_word config 0 slot func 0x02 in
      let at = matches-place slot func (omega arith) in
      let later : first matches (suc (slot * 8 + func)) n
          ≡ elim (scan_functions config vendor device slot (suc func) n) [
            | some k ↦ some (slot * 8 + k)
            | none ↦ none
          ] =
        ap (λ k. first matches k n) {x = suc (slot * 8 + func)} {y = slot * 8 + suc func}
          (omega arith)
        ∙ scan_functions-first slot (suc func) n there (omega arith) in
      elim (Bool-cases (v == 0xFFFF)) [
        | inl missing ↦
            let miss : matches (slot * 8 + func) ≡ false =
              at ∙ is_match-missing slot func missing in
            let inner : (func == 0) ≡ false = not_first slot func there missing in
            rw (miss, missing, inner, first, scan_functions) later
        | inr present ↦
            let known : matches (slot * 8 + func) ≡ ((v == vendor) && (d == device)) =
              at ∙ is_match-present slot func there present in
            elim (Bool-cases ((v == vendor) && (d == device))) [
              | inl hit ↦ rw (known ∙ hit, present, hit, first, scan_functions) refl
              | inr other ↦ rw (known ∙ other, present, other, first, scan_functions) later
            ]
      ]

  -- A slot whose function 0 is missing.
  slot-missing :
      (slot : ℕ)
      → (pci_read_config_word config 0 slot 0 0x00 == 0xFFFF) ≡ true
      → (first matches (slot * 8) 8 ≡ none) × (scan_functions config vendor device slot 0 8 ≡ none)
  unfolding scan_functions matches
  slot-missing slot missing = (
    first-none matches (slot * 8) 8 (λ j lo hi.
        let place : j / 8 ≡ slot = omega arith in
        ap (λ t. is_match t (j % 8)) place ∙ is_match-empty slot (j % 8) missing),
    rw (missing, scan_functions) refl,
  )

  slot-first :
      (slot : ℕ)
      → first matches (slot * 8) 8 ≡ elim (scan_functions config vendor device slot 0 8) [
        | some k ↦ some (slot * 8 + k)
        | none ↦ none
      ]
  slot-first slot = elim (Bool-cases (pci_read_config_word config 0 slot 0 0x00 == 0xFFFF)) [
    | inl missing ↦
        let (searched, scanned) = slot-missing slot missing in rw (searched, scanned) refl
    | inr there ↦
        ap (λ k. first matches k 8) {x = slot * 8} {y = slot * 8 + 0} (omega arith)
        ∙ scan_functions-first slot 0 8 there (omega arith)
  ]

  scan_slots-first :
      (slot n : ℕ)
      → first matches (slot * 8) (n * 8) ≡ elim (scan_slots config vendor device slot n) [
        | some (t, func) ↦ some (t * 8 + func)
        | none ↦ none
      ]
  unfolding first scan_slots
  scan_slots-first slot zero = refl
  scan_slots-first slot (suc n) =
      let here = slot-first slot in
      let rest =
        ap (λ k. first matches k (n * 8)) {x = slot * 8 + 8} {y = suc slot * 8} (omega arith)
        ∙ scan_slots-first (suc slot) n in
      first-split matches (slot * 8) 8 (n * 8) (suc n * 8) (omega arith)
      ∙ elim (Option-cases (scan_functions config vendor device slot 0 8)) [
        | inl none_here ↦ rw (here, none_here, scan_slots) rest
        | inr (func, found) ↦ rw (here, found, scan_slots) refl
      ]

  scan_functions-lt :
      (slot func n k : ℕ) → scan_functions config vendor device slot func n ≡ some k → k < func + n
  unfolding scan_functions
  scan_functions-lt slot func zero k h = absurd (cc h)
  scan_functions-lt slot func (suc n) k h =
      let v = pci_read_config_word config 0 slot func 0x00 in
      let d = pci_read_config_word config 0 slot func 0x02 in
      elim (Bool-cases (v == 0xFFFF)) [
        | inl missing ↦ elim (Bool-cases (func == 0)) [
          | inl zeroth ↦ absurd (nothing (rw (missing, zeroth) at h))
          | inr inner ↦
              omega (arith, scan_functions-lt slot (suc func) n k (rw (missing, inner) at h))
        ]
        | inr present ↦ elim (Bool-cases ((v == vendor) && (d == device))) [
          | inl hit ↦ let e : func ≡ k = number (rw (present, hit) at h) in omega (arith, e)
          | inr other ↦
              omega (arith, scan_functions-lt slot (suc func) n k (rw (present, other) at h))
        ]
      ]

  scan_slots-lt :
      (slot n t func : ℕ) → scan_slots config vendor device slot n ≡ some (t, func) → func < 8
  unfolding scan_slots second
  scan_slots-lt slot zero t func h = absurd (cc h)
  scan_slots-lt slot (suc n) t func h =
      elim (Option-cases (scan_functions config vendor device slot 0 8)) [
        | inl none_here ↦ scan_slots-lt (suc slot) n t func (rw (none_here, scan_slots) at h)
        | inr (k, found) ↦
            let at : Option (ℕ × ℕ) = some (slot, k) in
            let same : at ≡ some (t, func) = rw (found, scan_slots) at h in
            let e : k ≡ func = ap second same in
            omega (arith, e, scan_functions-lt slot 0 8 k found)
      ]

-- `pci_find_device`, which leaves a slot when its function 0 is missing, finds what a plain search of all
-- 256 functions of the bus finds: the first function with the two numbers in a slot that has a function
-- 0; and where there is none it fails and leaves `out`.
pub pci_find_device-first :
    (config : ℕ → ℕ) (vendor device : ℕ) (out : PciDevice)
    → pci_find_device config vendor device (some out)
      ≡ elim (first (matches config vendor device) 0 256) [
        | none ↦ (failure, some out)
        | some k ↦ (success, some (found_device config (k / 8) (k % 8)))
      ]
unfolding pci_find_device
pci_find_device-first config vendor device out =
    let searched = scan_slots-first config vendor device 0 32 in
    elim (Option-cases (scan_slots config vendor device 0 32)) [
      | inl none_found ↦ rw (searched, none_found, pci_find_device) refl
      | inr ((slot, func), found) ↦
          let small = scan_slots-lt config vendor device 0 32 slot func found in
          let at_slot : (slot * 8 + func) / 8 ≡ slot = omega arith in
          let at_func : (slot * 8 + func) % 8 ≡ func = omega arith in
          rw (searched, found, at_slot, at_func, pci_find_device) refl
    ]
