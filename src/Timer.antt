-- ===== src/Timer.antt =====
-- drivers/timer.c: the timer, which counts its interrupts, runs the scheduler at each and shows the
-- seconds on the screen.
pub mod Wait
pub mod Irq
mod Tests
use minimalist_os.Base.{
  ℕ, zero, suc, ◌+◌, ◌-◌, ◌*◌, ◌/◌, ◌%◌, ◌^◌, List, [], ◌∷◌, Option, none, some, ltb, ◌==◌, true,
  false, if◌then◌else◌, set,
}
use minimalist_os.Interrupts.{Interrupts, register_interrupt_handler, enable_irq}
use minimalist_os.Ports.{Ports, outb}
use minimalist_os.Process.{Scheduler, schedule}
use minimalist_os.Vga.{Vga, vga_width}

-- The digit of the seconds, at row 24 and column 70.
unfoldable pub show_seconds : ℕ → Vga → Vga
show_seconds timer_ticks s =
    if timer_ticks % 100 == 0
    then record s { vga = set s.vga (vga_width * 24 + 70) (0x1F00 + timer_ticks / 100 % 10 + b'0') }
    else s

unfoldable pub timer_interrupt_handler : ℕ → Scheduler → Vga → ℕ × Scheduler × Vga
timer_interrupt_handler timer_ticks scheduler s =
    let timer_ticks' = (timer_ticks + 1) % 2 ^ 32 in
    (timer_ticks', (schedule scheduler).0, show_seconds timer_ticks' s)

-- 100 ticks in a second. `handler` is `timer_interrupt_handler`.
unfoldable pub timer_init {ℓ} : {A : Type ℓ} → A → Interrupts A → Ports → Interrupts A × Ports
timer_init handler i p =
    let divisor = 1193180 / 100 in
    (
      register_interrupt_handler 32 (some handler) i,
      enable_irq 0 (outb 0x40 (divisor / 2 ^ 8) (outb 0x40 (divisor % 2 ^ 8) (outb 0x43 0x36 p))),
    )

-- The loop of `timer_wait`: each look at `timer_ticks` finds the next of the `readings`. The result
-- is what is left of them, or none where the loop goes on at their end.
unfoldable pub wait_ticks : ℕ → ℕ → List ℕ → Option (List ℕ)
wait_ticks start ticks [] = none
wait_ticks start ticks (now ∷ readings) =
    let rest = wait_ticks start ticks readings in
    if ltb ((now + 2 ^ 32 - start) % 2 ^ 32) ticks then rest else some readings

-- The first reading is that of `start`.
unfoldable pub timer_wait : ℕ → List ℕ → Option (List ℕ)
timer_wait ticks [] = none
timer_wait ticks (start ∷ readings) = wait_ticks start ticks readings

unfoldable pub timer_get_ticks : ℕ → ℕ
timer_get_ticks timer_ticks = timer_ticks
