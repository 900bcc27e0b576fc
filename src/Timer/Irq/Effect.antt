-- ===== src/Timer/Irq/Effect.antt =====
-- What a sequence of interrupts does to the kernel.
use minimalist_os.Base.{ℕ, ◌+◌, ◌%◌, ◌^◌, ◌≡◌, List, ◌++◌, Bool}
use minimalist_os.Keyboard.{Keyboard}
use minimalist_os.Process.Schedule.Fair.{ticks}
use minimalist_os.Timer.Irq.{Machine}
use minimalist_os.Timer.Irq.Trace.{count, eois, scancodes, typed}
use minimalist_os.Timer.Irq.One.{One}

pub record Effect (with_mouse : Bool) (ls : List ℕ) (m m' : Machine) : Type 0 where
  pub counted : m'.timer_ticks ≡ (m.timer_ticks + count 0 ls) % 2 ^ 32
  pub scheduled : m'.scheduler ≡ ticks (count 0 ls) m.scheduler
  pub keys_typed : m'.keys ≡ typed (scancodes with_mouse m.ports.answers m.ports.accesses ls) m.keys
  pub acknowledged : m'.ports.written ≡ m.ports.written ++ eois ls
  pub kept : m'.interrupts ≡ m.interrupts
