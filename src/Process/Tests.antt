-- ===== src/Process/Tests.antt =====
-- Tests of the process table, and the theorems after two processes were created.
use minimalist_os.Base.{◌≤◌, true, ℕ, ◌≡◌, refl, [], ◌∷◌, none, some, arith, replicate}
use minimalist_os.Base.Search.{find_index}
use minimalist_os.Process.{
  Scheduler, CpuContext, zero_process, process, set_state, clear_states, kernel_process,
  new_process, find_slot, process_init, process_create, next_ready, charge_process, charge_tick,
  dispatch, switched, schedule, max_processes,
}
use minimalist_os.Process.Invariant.{IsValid, process_create-IsValid}
use minimalist_os.Process.Schedule.Fair.{schedule-fair, ticks}
use minimalist_os.Process.Schedule.{runnable}
use minimalist_os.Process.Run.{calls, create, exit, tick, calls-IsValid, process_init-IsValid}

-- The table before `process_init`.
unfoldable blank : Scheduler
blank = record {
  processes = replicate max_processes zero_process;
  next_pid = 0;
  current_process = 0;
  scheduler_ticks = 0;
  current_process_ptr = none;
}

-- Contexts are left as they are.
abbrev keep : CpuContext → ℕ → ℕ → CpuContext
keep c entry stack = c

unfoldable one : Scheduler
one = process_init blank

unfoldable two : Scheduler
two = (process_create keep (b'a' ∷ 0 ∷ []) (some 4096) one).1

one-IsValid : IsValid one
unfolding one blank
one-IsValid =
    process_init-IsValid
      (record {
        processes = replicate max_processes zero_process;
        next_pid = 0;
        current_process = 0;
        scheduler_ticks = 0;
        current_process_ptr = none;
      })
      refl

two-IsValid : IsValid two
unfolding two
two-IsValid = process_create-IsValid keep (b'a' ∷ 0 ∷ []) (some 4096) one one-IsValid

two_pids : two.next_pid ≡ 2
unfolding two one blank process_init process_create find_slot find_index kernel_process new_process
    clear_states zero_process
two_pids = refl

-- The tick hands the processor from the kernel to the new process.
elected : ((schedule two).0.current_process ≡ 1) × ((schedule two).1 ≡ some (0, 1))
unfolding two one blank process_init process_create find_slot find_index kernel_process new_process
    clear_states zero_process schedule charge_tick charge_process next_ready dispatch switched
    process set_state
elected = (refl, refl)

calls-IsValid_example :
    IsValid (calls keep (tick ∷ exit 0 ∷ tick ∷ create (b'b' ∷ 0 ∷ []) none ∷ []) two)
calls-IsValid_example =
    calls-IsValid keep (tick ∷ exit 0 ∷ tick ∷ create (b'b' ∷ 0 ∷ []) none ∷ []) two two-IsValid

second_runnable : runnable two 1 ≡ true
unfolding two one blank process_init process_create find_slot find_index kernel_process new_process
    clear_states zero_process runnable process
second_runnable = refl

schedule-fair_example : (k : ℕ) × (k ≤ two.next_pid) × ((ticks k two).current_process ≡ 1)
schedule-fair_example =
    schedule-fair two 1 two-IsValid (omega (arith, two_pids)) (omega (arith, two_pids))
      second_runnable
