-- ===== src/Timer/Irq/One.antt =====
-- What one interrupt does.
use Prim.Native.Nat.{bit_and}
use mathlib.Core.List.{append_assoc}
use mathlib.Core.Path.{subst}
use minimalist_os.Base.{
  ℕ, ◌+◌, ◌%◌, ◌^◌, ◌<◌, ◌≡◌, refl, sym, ap, ◌∙◌, [], ◌∷◌, ◌++◌, Option, none, some, Bool, true,
  false, inl, inr, leb, ◌==◌, if◌then◌else◌, get_or, length, arith, Bool-cases,
}
use minimalist_os.Interrupts.{Interrupts, irq_handler}
use minimalist_os.Keyboard.{keyboard_handler}
use minimalist_os.Mouse.{Mouse, mouse_irq_handler}
use minimalist_os.Ports.{Ports, outb, inb}
use minimalist_os.Process.Schedule.Fair.{ticks}
use minimalist_os.Timer.Irq.{
  Handler, timer, keyboard, mouse, Machine, keyboard_interrupt_handler, run_handler, interrupt,
}
use minimalist_os.Timer.{timer_interrupt_handler}
use minimalist_os.Vga.{Vga}
use minimalist_os.Timer.Irq.Trace.{IsRegistered, eoi, next_access, scancode, typed}

-- What one interrupt does, and where it leaves the accesses to the ports.
pub record One (with_mouse : Bool) (l : ℕ) (m m' : Machine) : Type 0 where
  pub counted : m'.timer_ticks ≡ (m.timer_ticks + (if l == 0 then 1 else 0)) % 2 ^ 32
  pub scheduled : m'.scheduler ≡ ticks (if l == 0 then 1 else 0) m.scheduler
  pub keys_typed : m'.keys ≡ typed (scancode m.ports.answers m.ports.accesses l) m.keys
  pub acknowledged : m'.ports.written ≡ m.ports.written ++ eoi l
  pub accesses : m'.ports.accesses ≡ next_access with_mouse m.ports.answers m.ports.accesses l
  pub answers : m'.ports.answers ≡ m.ports.answers
  pub kept : m'.interrupts ≡ m.interrupts

-- The ports behind the end of an interrupt.
record Ended (l : ℕ) (p q : Ports) : Type 0 where
  written : q.written ≡ p.written ++ eoi l
  accesses : q.accesses ≡ p.accesses + length (eoi l)
  answers : q.answers ≡ p.answers

irq_handler-Ended :
    (l : ℕ) (i : Interrupts Handler) (p : Ports) → Ended l p (irq_handler (32 + l) i p).1
unfolding irq_handler outb eoi
irq_handler-Ended l i p = elim (Bool-cases (leb 8 l)) [
  | inl second ↦
      let same : leb 40 (32 + l) ≡ true = ground arith in
      record {
        written =
            rw (second, same) (append_assoc p.written ((0xA0, 0x20) ∷ []) ((0x20, 0x20) ∷ []));
        accesses = rw (second, same) (omega arith);
        answers = rw same refl;
      }
  | inr first ↦
      let same : leb 40 (32 + l) ≡ false = ground arith in
      record {
        written = rw (first, same) refl;
        accesses = rw (first, same) (omega arith);
        answers = rw same refl;
      }
]

-- The ports behind the handler of the mouse.
record Looked (p q : Ports) : Type 0 where
  written : q.written ≡ p.written
  accesses :
      q.accesses
      ≡ p.accesses + (if bit_and (p.answers 0x64 p.accesses % 256) 0x20 == 0 then 1 else 2)
  answers : q.answers ≡ p.answers

mouse-Looked : (p : Ports) (k : Mouse) (s : Vga) → Looked p (mouse_irq_handler p k s).0
unfolding mouse_irq_handler inb
mouse-Looked p k s = elim (Bool-cases (bit_and (p.answers 0x64 p.accesses % 256) 0x20 == 0)) [
  | inl other ↦ record {
    written = rw other refl;
    accesses = rw other refl;
    answers = rw other refl;
  }
  | inr own ↦ record {
    written = rw own refl;
    accesses = rw own (omega arith);
    answers = rw own refl;
  }
]

module _ (on : Bool) (l : ℕ) (m : Machine) where
  -- After the end of the interrupt.
  acked : Machine
  acked = record m { ports = (irq_handler (32 + l) m.interrupts m.ports).1 }

  acked-Ended : Ended l m.ports acked.ports
  unfolding acked
  acked-Ended = irq_handler-Ended l m.interrupts m.ports

  interrupt-run :
      (o : Option Handler)
      → get_or m.interrupts.interrupt_handlers (32 + l) none ≡ o
      → interrupt l m ≡ elim o [ none ↦ acked | some h ↦ run_handler h acked ]
  unfolding interrupt acked irq_handler
  interrupt-run o e = ap (λ t. elim t [ none ↦ acked | some h ↦ run_handler h acked ]) e

  module _ (small : m.timer_ticks < 2 ^ 32) where
    One-timer : (l == 0) ≡ true → One on l m (run_handler timer acked)
    unfolding run_handler timer_interrupt_handler scancode next_access ticks typed acked
    One-timer own =
        let not_key : (l == 1) ≡ false = ground arith in
        let not_mouse : (l == 12) ≡ false = ground arith in
        let ticked : (if l == 0 then 1 else 0) ≡ 1 = rw own refl in
        let end = acked-Ended in
        record {
          counted = omega (arith, small, ticked);
          scheduled = sym (ap (λ n. ticks n m.scheduler) ticked);
          keys_typed = rw not_key refl;
          acknowledged = end.written;
          accesses = rw (not_key, not_mouse) end.accesses;
          answers = end.answers;
          kept = refl;
        }

    -- The other lines leave the counter and the scheduler alone.
    not_ticked :
        (l == 0) ≡ false
        → (m.timer_ticks ≡ (m.timer_ticks + (if l == 0 then 1 else 0)) % 2 ^ 32)
          × (m.scheduler ≡ ticks (if l == 0 then 1 else 0) m.scheduler)
    unfolding ticks
    not_ticked other =
        let none_counted : (if l == 0 then 1 else 0) ≡ 0 = rw other refl in
        (omega (arith, small, none_counted), sym (ap (λ n. ticks n m.scheduler) none_counted))

    One-keyboard : (l == 0) ≡ false → (l == 1) ≡ true → One on l m (run_handler keyboard acked)
    unfolding run_handler keyboard_interrupt_handler inb scancode next_access ticks typed acked
    One-keyboard not_timer own =
        let end = acked-Ended in
        let quiet = not_ticked not_timer in
        record {
          counted = quiet.0;
          scheduled = quiet.1;
          keys_typed = rw own (
              ap (λ a. keyboard_handler (a 0x60 acked.ports.accesses % 256) m.keys) end.answers
              ∙ ap (λ n. keyboard_handler (m.ports.answers 0x60 n % 256) m.keys) end.accesses);
          acknowledged = end.written;
          accesses = rw own (ap (λ n. n + 1) end.accesses);
          answers = end.answers;
          kept = refl;
        }

    One-mouse :
        (l == 0) ≡ false
        → (l == 1) ≡ false
        → (l == 12) ≡ true
        → on ≡ true
        → One on l m (run_handler mouse acked)
    unfolding run_handler scancode next_access ticks typed acked
    One-mouse not_timer not_key own set_up =
        let end = acked-Ended in
        let look = mouse-Looked acked.ports m.pointer m.screen in
        let reads : (ℕ → ℕ → ℕ) → ℕ → ℕ =
          λ a n. n + (if bit_and (a 0x64 n % 256) 0x20 == 0 then 1 else 2) in
        let quiet = not_ticked not_timer in
        record {
          counted = quiet.0;
          scheduled = quiet.1;
          keys_typed = rw not_key refl;
          acknowledged = look.written ∙ end.written;
          accesses =
              rw (not_key, own, set_up)
                (look.accesses
                  ∙ ap (λ a. reads a acked.ports.accesses) end.answers
                  ∙ ap (reads m.ports.answers) end.accesses);
          answers = look.answers ∙ end.answers;
          kept = refl;
        }

    -- A line without a handler.
    One-none :
        (l == 0) ≡ false
        → (l == 1) ≡ false
        → next_access on m.ports.answers m.ports.accesses l ≡ m.ports.accesses + length (eoi l)
        → One on l m acked
    unfolding scancode ticks typed acked
    One-none not_timer not_key place =
        let end = acked-Ended in
        let quiet = not_ticked not_timer in
        record {
          counted = quiet.0;
          scheduled = quiet.1;
          keys_typed = rw not_key refl;
          acknowledged = end.written;
          accesses = end.accesses ∙ sym place;
          answers = end.answers;
          kept = refl;
        }

    -- An interrupt of any line.
    pub interrupt-One : l < 16 → IsRegistered on m.interrupts → One on l m (interrupt l m)
    unfolding IsRegistered next_access
    interrupt-One lt registered = elim (Bool-cases (l == 0)) [
      | inl own ↦
          let e = interrupt-run (some timer) (registered l lt ∙ rw own refl) in
          subst (λ t. One on l m t) (sym e) (One-timer own)
      | inr not_timer ↦ elim (Bool-cases (l == 1)) [
        | inl own ↦
            let e = interrupt-run (some keyboard) (registered l lt ∙ rw (not_timer, own) refl) in
            subst (λ t. One on l m t) (sym e) (One-keyboard not_timer own)
        | inr not_key ↦ elim (Bool-cases (l == 12)) [
          | inr other ↦
              let e = interrupt-run none (registered l lt ∙ rw (not_timer, not_key, other) refl) in
              subst (λ t. One on l m t) (sym e)
                (One-none not_timer not_key (rw (not_key, other) refl))
          | inl own ↦ elim (Bool-cases on) [
            | inl set_up ↦
                let e =
                  interrupt-run (some mouse)
                    (registered l lt ∙ rw (not_timer, not_key, own, set_up) refl) in
                subst (λ t. One on l m t) (sym e) (One-mouse not_timer not_key own set_up)
            | inr absent ↦
                let e =
                  interrupt-run none
                    (registered l lt ∙ rw (not_timer, not_key, own, absent) refl) in
                subst (λ t. One on l m t) (sym e)
                  (One-none not_timer not_key (rw (not_key, own, absent) refl))
          ]
        ]
      ]
    ]
