-- ===== src/Process/Run.antt =====
-- Sequences of calls on the process table.
use minimalist_os.Base.{
  ℕ, zero, suc, ◌<◌, ◌≡◌, refl, sym, ap, ◌∙◌, List, [], ◌∷◌, Option, some, arith, get_or, length,
  length-set,
}
use mathlib.Core.Path.{subst}
use minimalist_os.Process.{
  Scheduler, Process, CpuContext, process_empty, process_zombie, zero_process, process,
  clear_states, process_init, kernel_process, process_create, schedule, retire, process_exit,
  max_processes,
}
use minimalist_os.Process.Invariant.{
  IsValid, process_create-IsValid, state-set, state-set_state, length-set_state,
}
use minimalist_os.Process.Schedule.{schedule-IsValid}

-- The calls of the kernel and of the timer interrupt. An entry point is an address.
pub data Op : Type 0 where
  create : List ℕ → Option ℕ → Op
  exit : ℕ → Op
  tick : Op

pub step : (CpuContext → ℕ → ℕ → CpuContext) → Op → Scheduler → Scheduler
step context_init (create name entry_point) s = (process_create context_init name entry_point s).1
step context_init (exit status) s = (process_exit status s).0
step context_init tick s = (schedule s).0

pub calls : (CpuContext → ℕ → ℕ → CpuContext) → List Op → Scheduler → Scheduler
calls context_init [] s = s
calls context_init (op ∷ ops) s = calls context_init ops (step context_init op s)

-- A zombie does not run.
retire-IsValid : (s : Scheduler) → IsValid s → IsValid (retire (some s.current_process) s)
unfolding retire process
retire-IsValid s valid =
    let here : s.current_process < length s.processes =
      omega (arith, valid.table, valid.current, valid.pids) in
    record {
      table = length-set_state s.processes s.current_process process_zombie ∙ valid.table;
      pids = valid.pids;
      current = valid.current;
      pointer = valid.pointer;
      alone = λ j run. ground (
        arith,
        state-set_state s.processes s.current_process j process_zombie here,
        valid.alone j,
      );
    }

process_exit-IsValid : (status : ℕ) (s : Scheduler) → IsValid s → IsValid (process_exit status s).0
unfolding process_exit
process_exit-IsValid status s valid =
    schedule-IsValid (retire s.current_process_ptr s)
      (subst (λ o. IsValid (retire o s)) (sym valid.pointer) (retire-IsValid s valid))

step-IsValid :
    (context_init : CpuContext → ℕ → ℕ → CpuContext) (op : Op) (s : Scheduler)
    → IsValid s
    → IsValid (step context_init op s)
unfolding step
step-IsValid context_init (create name entry_point) s valid =
    process_create-IsValid context_init name entry_point s valid
step-IsValid context_init (exit status) s valid = process_exit-IsValid status s valid
step-IsValid context_init tick s valid = schedule-IsValid s valid

-- Every sequence of calls that starts in a valid state ends in one: at most one process is running,
-- it is the current one, and all indices stay within the table.
pub calls-IsValid :
    (context_init : CpuContext → ℕ → ℕ → CpuContext) (ops : List Op) (s : Scheduler)
    → IsValid s
    → IsValid (calls context_init ops s)
unfolding calls
calls-IsValid context_init [] s valid = valid
calls-IsValid context_init (op ∷ ops) s valid =
    calls-IsValid context_init ops (step context_init op s) (step-IsValid context_init op s valid)

length-clear_states : (ps : List Process) → length (clear_states ps) ≡ length ps
unfolding clear_states
length-clear_states [] = refl
length-clear_states (p ∷ ps) = ap suc (length-clear_states ps)

state-clear_states :
    (ps : List Process) (j : ℕ) → (get_or (clear_states ps) j zero_process).state ≡ process_empty
unfolding clear_states zero_process
state-clear_states [] j = refl
state-clear_states (p ∷ ps) zero = refl
state-clear_states (p ∷ ps) (suc j) = state-clear_states ps j

-- `process_init` makes a table of eight entries valid.
pub process_init-IsValid :
    (s : Scheduler) → length s.processes ≡ max_processes → IsValid (process_init s)
unfolding process_init process
process_init-IsValid s size =
    let ps = clear_states s.processes in
    let here : 0 < length ps = omega (arith, length-clear_states s.processes) in
    record {
      table = length-set ps 0 _ ∙ length-clear_states s.processes ∙ size;
      pids = omega arith;
      current = omega arith;
      pointer = refl;
      alone = λ j run. ground (
        arith,
        state-set ps 0 j (kernel_process (get_or ps 0 zero_process)) here,
        state-clear_states s.processes j,
      );
    }
