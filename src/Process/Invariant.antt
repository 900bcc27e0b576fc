-- ===== src/Process/Invariant.antt =====
-- The invariant of the process table: at most one process runs, and it is the current one.
use minimalist_os.Base.{
  ℕ, ◌≤◌, ◌<◌, ◌≡◌, refl, sym, ap, ◌∙◌, List, Bool, true, false, Option, some, ◌==◌, ◌||◌,
  if◌then◌else◌, arith, get_or, set, length, length-set, inl, inr, Option-cases, Bool-cases,
}
use minimalist_os.Base.Search.{find_index-Found, get_or-set}
use minimalist_os.Process.{
  Scheduler, Process, ProcessState, CpuContext, process_ready, process_running, process_zombie,
  process_empty, process_blocked, is_running, is_ready, is_free, zero_process, process, set_state,
  new_process, find_slot, process_create, charge_process, max_processes,
}

pub record IsValid (s : Scheduler) : Type 0 where
  pub table : length s.processes ≡ max_processes
  pub pids : s.next_pid ≤ max_processes
  pub current : s.current_process < s.next_pid
  pub pointer : s.current_process_ptr ≡ some s.current_process
  pub alone : (j : ℕ) → is_running (process s j).state ≡ true → j ≡ s.current_process

-- What a write to one entry does to the states.
pub state-set :
    (ps : List Process) (i j : ℕ) (p : Process)
    → i < length ps
    → (get_or (set ps i p) j zero_process).state
      ≡ (if i == j then p.state else (get_or ps j zero_process).state)
state-set ps i j p h = rw (get_or-set ps i j p zero_process h) (state-if (i == j))
  where
    state-if :
        (b : Bool)
        → (if b then p else get_or ps j zero_process).state
          ≡ (if b then p.state else (get_or ps j zero_process).state)
    state-if true = refl
    state-if false = refl

pub state-set_state :
    (ps : List Process) (i j : ℕ) (st : ProcessState)
    → i < length ps
    → (get_or (set_state ps i st) j zero_process).state
      ≡ (if i == j then st else (get_or ps j zero_process).state)
unfolding set_state
state-set_state ps i j st h = state-set ps i j (record (get_or ps i zero_process) { state = st }) h

pub length-set_state :
    (ps : List Process) (i : ℕ) (st : ProcessState) → length (set_state ps i st) ≡ length ps
unfolding set_state
length-set_state ps i st = length-set ps i _

-- A new process is ready, so none but the current one runs.
pub process_create-IsValid :
    (context_init : CpuContext → ℕ → ℕ → CpuContext) (name : List ℕ) (entry_point : Option ℕ)
    (s : Scheduler)
    → IsValid s
    → IsValid (process_create context_init name entry_point s).1
unfolding process_create find_slot process new_process
process_create-IsValid context_init name entry_point s valid = elim (Option-cases (find_slot s)) [
  | inl full ↦ rw (full, process_create) valid
  | inr (i, found) ↦
      let new = new_process context_init (process s i) i name entry_point in
      let f =
        find_index-Found (λ p. is_free p.state) zero_process s.processes 0 max_processes i found in
      let here : i < length s.processes = omega (arith, f.below, valid.table) in
      rw (found, process_create)
        (record {
          table = length-set s.processes i new ∙ valid.table;
          pids = ground (arith, f.below, valid.pids);
          current = ground (arith, valid.current);
          pointer = valid.pointer;
          alone = λ j run. valid.alone j (ground (arith, state-set s.processes i j new here));
        })
]

-- The state that a process has after a tick.
idle_state : (st : ProcessState) → is_running (if is_running st then process_ready else st) ≡ false
idle_state process_empty = refl
idle_state process_running = refl
idle_state process_ready = refl
idle_state process_blocked = refl
idle_state process_zombie = refl

ready_state :
    (st : ProcessState)
    → is_ready (if is_running st then process_ready else st) ≡ (is_ready st || is_running st)
ready_state process_empty = refl
ready_state process_running = refl
ready_state process_ready = refl
ready_state process_blocked = refl
ready_state process_zombie = refl

or_false : (a b : Bool) → b ≡ false → a ≡ (a || b)
or_false a b h = ground arith

-- Charging the current process leaves it in the table, and no process is running.
module _ (s : Scheduler) (valid : IsValid s) where
  in_table : s.current_process < length s.processes
  in_table = omega (arith, valid.table, valid.current, valid.pids)

  state-charge_process :
      (j : ℕ)
      → (process (charge_process s s.current_process) j).state ≡ (
          if s.current_process == j
          then (if is_running (process s s.current_process).state
              then process_ready
              else (process s s.current_process).state)
          else (process s j).state)
  unfolding charge_process process
  state-charge_process j = state-set s.processes s.current_process j _ in_table

  charged_self : (process (charge_process s s.current_process) s.current_process).state ≡ (
      if is_running (process s s.current_process).state
      then process_ready
      else (process s s.current_process).state)
  charged_self = ground (arith, state-charge_process s.current_process)

  charged_other :
      (j : ℕ)
      → (s.current_process == j) ≡ false
      → (process (charge_process s s.current_process) j).state ≡ (process s j).state
  charged_other j other = ground (arith, state-charge_process j)

  others-idle : (j : ℕ) → (s.current_process == j) ≡ false → is_running (process s j).state ≡ false
  others-idle j other = elim (Bool-cases (is_running (process s j).state)) [
    | inl run ↦ ground (arith, valid.alone j run)
    | inr idle ↦ idle
  ]

  pub charged-idle :
      (j : ℕ) → is_running (process (charge_process s s.current_process) j).state ≡ false
  charged-idle j = elim (Bool-cases (s.current_process == j)) [
    | inl same ↦
        let e : s.current_process ≡ j = ground arith in
        rw (← e) (ap is_running charged_self ∙ idle_state (process s s.current_process).state)
    | inr other ↦ ap is_running (charged_other j other) ∙ others-idle j other
  ]

  pub charged-ready :
      (j : ℕ)
      → is_ready (process (charge_process s s.current_process) j).state
        ≡ (is_ready (process s j).state || is_running (process s j).state)
  charged-ready j = elim (Bool-cases (s.current_process == j)) [
    | inl same ↦
        let e : s.current_process ≡ j = ground arith in
        rw (← e) (ap is_ready charged_self ∙ ready_state (process s s.current_process).state)
    | inr other ↦
        ap is_ready (charged_other j other)
        ∙ or_false (is_ready (process s j).state) (is_running (process s j).state)
            (others-idle j other)
  ]

  pub length-charge_process : length (charge_process s s.current_process).processes ≡ max_processes
  unfolding charge_process
  length-charge_process = length-set s.processes s.current_process _ ∙ valid.table

  -- The state after the process `k` was set running.
  pub dispatched-IsValid :
      (k : ℕ) (s' : Scheduler)
      → k < s.next_pid
      → s'.next_pid ≡ s.next_pid
      → s'.current_process ≡ k
      → s'.current_process_ptr ≡ some k
      → s'.processes ≡ set_state (charge_process s s.current_process).processes k process_running
      → IsValid s'
  unfolding process
  dispatched-IsValid k s' lt np cur ptr table =
      let ps = (charge_process s s.current_process).processes in
      let here : k < length ps = omega (arith, length-charge_process, valid.pids) in
      record {
        table = ap length table ∙ length-set_state ps k process_running ∙ length-charge_process;
        pids = omega (arith, valid.pids);
        current = omega arith;
        pointer = ptr ∙ ap some (sym cur);
        alone = λ j run. ground (
          arith,
          charged-idle j,
          ap (λ qs. (get_or qs j zero_process).state) table,
          state-set_state ps k j process_running here,
        );
      }
