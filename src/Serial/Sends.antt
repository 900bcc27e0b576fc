-- ===== src/Serial/Sends.antt =====
-- What a serial routine does to the ports: the bytes that it sends, and how long it takes.
use mathlib.Core.List.{append_assoc, append-nil}
use minimalist_os.Base.{
  ℕ, zero, suc, ◌+◌, ◌*◌, ◌≤◌, ◌≡◌, refl, sym, ap, ◌∙◌, List, [], ◌∷◌, ◌++◌, inl, inr, ◌==◌, length,
  length-append, arith, Bool-cases,
}
use minimalist_os.Ports.{Ports, outb, inb}
use minimalist_os.Serial.{serial_is_transmit_empty, wait_transmit, transmit_timeout, serial_putchar}

unfoldable pub to_port : ℕ → List ℕ → List (ℕ × ℕ)
to_port line [] = []
to_port line (c ∷ bytes) = (line, c) ∷ to_port line bytes

to_port-append :
    (line : ℕ) (xs ys : List ℕ) → to_port line (xs ++ ys) ≡ to_port line xs ++ to_port line ys
unfolding to_port
to_port-append line [] ys = refl
to_port-append line (x ∷ xs) ys = ap (λ zs. (line, x) ∷ zs) (to_port-append line xs ys)

-- From `p` to `q` exactly `bytes` went to `line`, with at most 100002 accesses for each.
pub record Sends (line : ℕ) (bytes : List ℕ) (p q : Ports) : Type 0 where
  pub sent : q.written ≡ p.written ++ to_port line bytes
  pub bounded : q.accesses ≤ p.accesses + 100002 * length bytes

pub Sends-nil : (line : ℕ) (p : Ports) → Sends line [] p p
unfolding to_port
Sends-nil line p = record { sent = sym (append-nil p.written); bounded = omega arith }

pub Sends-append :
    {line : ℕ} {xs ys : List ℕ} {p q r : Ports}
    → Sends line xs p q
    → Sends line ys q r
    → Sends line (xs ++ ys) p r
Sends-append {line} {xs} {ys} {p} {q} {r} first second = record {
  sent =
      second.sent
      ∙ ap (λ t. t ++ to_port line ys) first.sent
      ∙ append_assoc p.written (to_port line xs) (to_port line ys)
      ∙ ap (λ t. p.written ++ t) (sym (to_port-append line xs ys));
  bounded = omega (arith, first.bounded, second.bounded, length-append xs ys);
}

wait_transmit-quiet :
    (n line : ℕ) (p : Ports)
    → let q = wait_transmit n line p in (q.written ≡ p.written) × (q.accesses ≤ p.accesses + suc n)
unfolding wait_transmit serial_is_transmit_empty inb
wait_transmit-quiet zero line p = (refl, omega arith)
wait_transmit-quiet (suc n) line p =
    let (ready, p') = serial_is_transmit_empty line p in
    elim (Bool-cases (ready == 0)) [
      | inl busy ↦
          let (same, few) = wait_transmit-quiet n line p' in
          rw (busy, wait_transmit) (same, omega (arith, few))
      | inr idle ↦ rw (idle, wait_transmit) (refl, omega arith)
    ]

pub serial_putchar-Sends :
    (line c : ℕ) (p : Ports) → Sends line (c ∷ []) p (serial_putchar line c p)
unfolding serial_putchar outb to_port
serial_putchar-Sends line c p =
    let (same, few) = wait_transmit-quiet transmit_timeout line p in
    record { sent = ap (λ t. t ++ ((line, c) ∷ [])) same; bounded = omega (arith, few) }
