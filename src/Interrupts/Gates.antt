-- ===== src/Interrupts/Gates.antt =====
-- The gates that `idt_init` sets up.
use minimalist_os.Base.{
  ℕ, zero, suc, ◌+◌, ◌*◌, ◌^◌, ◌≤◌, ◌<◌, ◌≡◌, ◌≢◌, refl, sym, ap, ◌∙◌, inl, inr, true, false, ltb,
  ◌==◌, if◌then◌else◌, get_or, set, get_or-set_self, get_or-set_ne, length, length-set, replicate,
  arith, Bool-cases,
}
use minimalist_os.Ports.{Ports}
use minimalist_os.Interrupts.{
  IdtEntry, Interrupts, zero_entry, gate, idt_set_gate, set_gates, idt_init,
}

length-set_gates {ℓ} :
    {A : Type ℓ} (stub : ℕ → ℕ) (n : ℕ) (s : Interrupts A)
    → length (set_gates stub n s).idt ≡ length s.idt
unfolding set_gates idt_set_gate
length-set_gates stub zero s = refl
length-set_gates stub (suc n) s =
    length-set (set_gates stub n s).idt n (gate (stub n) 8 0x8E) ∙ length-set_gates stub n s

set_gates-get {ℓ} :
    {A : Type ℓ} (stub : ℕ → ℕ) (n k : ℕ) (s : Interrupts A)
    → n ≤ length s.idt
    → get_or (set_gates stub n s).idt k zero_entry
      ≡ (if ltb k n then gate (stub k) 8 0x8E else get_or s.idt k zero_entry)
unfolding set_gates idt_set_gate
set_gates-get stub zero k s room = ground arith
set_gates-get stub (suc n) k s room =
    let t = set_gates stub n s in
    let g = gate (stub n) 8 0x8E in
    elim (Bool-cases (n == k)) [
      | inl same ↦
          let e : n ≡ k = ground arith in
          let now : ltb k (suc n) ≡ true = ground arith in
          let here : n < length t.idt = omega (arith, length-set_gates stub n s) in
          rw now (
            ap (λ j. get_or (set t.idt n g) j zero_entry) (sym e)
            ∙ get_or-set_self t.idt n g zero_entry here
            ∙ ap (λ j. gate (stub j) 8 0x8E) e)
      | inr other ↦
          let ne : n ≢ k = λ e. ground arith in
          let same : ltb k (suc n) ≡ ltb k n = ground arith in
          rw same (get_or-set_ne t.idt n k g zero_entry ne ∙ set_gates-get stub n k s (omega arith))
    ]

get_or-blank : (n k : ℕ) → get_or (replicate n zero_entry) k zero_entry ≡ zero_entry
get_or-blank zero k = refl
get_or-blank (suc n) zero = refl
get_or-blank (suc n) (suc k) = get_or-blank n k

-- What the processor jumps to when it takes a gate.
pub target : IdtEntry → ℕ
target e = e.base_hi * 2 ^ 16 + e.base_lo

-- After `idt_init` each of the first 48 of the 256 gates leads to the stub of its vector, in the
-- code segment 8 and with the flags of a present interrupt gate, and all others are empty.
pub idt_init-gate {ℓ} :
    {A : Type ℓ} (stub : ℕ → ℕ) (address : ℕ) (s : Interrupts A) (p : Ports)
    → ((k : ℕ) → stub k < 2 ^ 32)
    → let idt = (idt_init stub address s p).0.idt in
      (length idt ≡ 256)
      × ((k : ℕ)
          → k < 48
          → let e = get_or idt k zero_entry in
            (target e ≡ stub k) × (e.sel ≡ 8) × (e.flags ≡ 0x8E) × (e.always0 ≡ 0))
      × ((k : ℕ) → 48 ≤ k → get_or idt k zero_entry ≡ zero_entry)
unfolding idt_init target gate
idt_init-gate stub address s p small =
    let cleared = record s { limit = 2047; base = address; idt = replicate 256 zero_entry } in
    let found : (k : ℕ)
        → get_or (set_gates stub 48 cleared).idt k zero_entry
          ≡ (if ltb k 48 then gate (stub k) 8 0x8E else get_or cleared.idt k zero_entry) =
      λ k. set_gates-get stub 48 k cleared (omega arith) in
    (
      length-set_gates stub 48 cleared,
      λ k lt.
          let e : get_or (set_gates stub 48 cleared).idt k zero_entry ≡ gate (stub k) 8 0x8E =
            found k ∙ ground arith in
          let low = small k in rw e (omega arith, refl, refl, refl),
      λ k le. let off : ltb k 48 ≡ false = ground arith in found k ∙ rw off (get_or-blank 256 k),
    )
