-- ===== src/Timer/Irq.antt =====
-- The interrupts of the running kernel: the timer, the keyboard and the mouse, by way of `irq_handler`.
pub mod Trace
pub mod One
pub mod Effect
use minimalist_os.Base.{
  ℕ, zero, suc, ◌+◌, ◌%◌, ◌^◌, ◌<◌, ◌≡◌, refl, sym, ap, ◌∙◌, List, [], ◌∷◌, ◌++◌, Option, none,
  some, true, false, inl, inr, leb, ◌==◌, if◌then◌else◌, get_or, length, arith, Bool-cases,
}
use minimalist_os.Interrupts.{Interrupts, irq_handler, pic1_cmd, pic2_cmd}
use minimalist_os.Keyboard.{Keyboard, keyboard_handler}
use minimalist_os.Mouse.{Mouse, mouse_irq_handler}
use minimalist_os.Ports.{Ports, outb, inb}
use minimalist_os.Process.{Scheduler, schedule}
use minimalist_os.Process.Schedule.Fair.{ticks}
use minimalist_os.Timer.{timer_interrupt_handler, show_seconds}
use minimalist_os.Vga.{Vga}

-- The handlers that the drivers register.
pub data Handler : Type 0 where
  timer : Handler
  keyboard : Handler
  mouse : Handler

pub record Machine : Type 0 where
  pub interrupts : Interrupts Handler
  pub ports : Ports
  pub timer_ticks : ℕ
  pub scheduler : Scheduler
  pub keys : Keyboard
  pub pointer : Mouse
  pub screen : Vga

-- `keyboard_interrupt_handler` and `keyboard_handler`, which reads the scancode.
unfoldable pub keyboard_interrupt_handler : Machine → Machine
keyboard_interrupt_handler m =
    let (scancode, p) = inb 0x60 m.ports in
    record m { ports = p; keys = keyboard_handler scancode m.keys }

unfoldable pub run_handler : Handler → Machine → Machine
run_handler timer m =
    let (t, scheduler, s) = timer_interrupt_handler m.timer_ticks m.scheduler m.screen in
    record m { timer_ticks = t; scheduler = scheduler; screen = s }
run_handler keyboard m = keyboard_interrupt_handler m
run_handler mouse m =
    let (p, moved) = mouse_irq_handler m.ports m.pointer m.screen in
    record m { ports = p; pointer = moved.0; screen = moved.1 }

-- The interrupt of a line of the controllers, from 0 to 15: the stub of the line passes the vector
-- `32 + line` to `irq_handler`. The vectors below 32 are exceptions, which go to `fault_handler` and
-- halt the processor, and the others have no gate or, as the system call, one of their own.
unfoldable pub interrupt : ℕ → Machine → Machine
interrupt line m =
    let (handler, p) = irq_handler (32 + line) m.interrupts m.ports in
    let m' = record m { ports = p } in elim handler [ none ↦ m' | some h ↦ run_handler h m' ]

unfoldable pub interrupts_after : List ℕ → Machine → Machine
interrupts_after [] m = m
interrupts_after (line ∷ rest) m = interrupts_after rest (interrupt line m)
