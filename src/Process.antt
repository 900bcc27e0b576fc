-- ===== src/Process.antt =====
-- kernel/process.c: the process table and the round-robin scheduler. The registers of a process are
-- saved and set up by assembly: `context_init` is a parameter, and `schedule` returns which pair of
-- contexts it hands to `context_switch`.
pub mod Invariant
pub mod Schedule
pub mod Run
mod Tests
use minimalist_os.Base.{
  ℕ, zero, suc, ◌+◌, ◌-◌, ◌%◌, ◌^◌, List, [], ◌∷◌, Bool, true, false, Option, none, some, ℤ, pos,
  negsuc, failure, leb, ◌==◌, if◌then◌else◌, get_or, set, replicate,
}
use minimalist_os.Base.Search.{find_index}
use minimalist_os.CString.{strncpy}

abbrev pub max_processes : ℕ
max_processes = 8

abbrev pub max_process_name : ℕ
max_process_name = 32

pub data ProcessState : Type 0 where
  process_empty : ProcessState
  process_running : ProcessState
  process_ready : ProcessState
  process_blocked : ProcessState
  process_zombie : ProcessState

abbrev pub is_running : ProcessState → Bool
is_running process_empty = false
is_running process_running = true
is_running process_ready = false
is_running process_blocked = false
is_running process_zombie = false

abbrev pub is_ready : ProcessState → Bool
is_ready process_empty = false
is_ready process_running = false
is_ready process_ready = true
is_ready process_blocked = false
is_ready process_zombie = false

-- `state == PROCESS_EMPTY || state == PROCESS_ZOMBIE`
abbrev pub is_free : ProcessState → Bool
is_free process_empty = true
is_free process_running = false
is_free process_ready = false
is_free process_blocked = false
is_free process_zombie = true

pub record CpuContext : Type 0 where
  pub eax : ℕ
  pub ebx : ℕ
  pub ecx : ℕ
  pub edx : ℕ
  pub esi : ℕ
  pub edi : ℕ
  pub ebp : ℕ
  pub esp : ℕ
  pub eip : ℕ
  pub eflags : ℕ
  pub cr3 : ℕ

-- The stack's bytes are left out; `stack` is its address.
pub record Process : Type 0 where
  pub pid : ℕ
  pub name : List ℕ
  pub state : ProcessState
  pub priority : ℕ
  pub runtime : ℕ
  pub stack : ℕ
  pub context : CpuContext

-- `current_process_ptr` is null or the address of an entry. `scheduler_ticks` is an `int` that
-- nothing reads.
pub record Scheduler : Type 0 where
  pub processes : List Process
  pub next_pid : ℕ
  pub current_process : ℕ
  pub scheduler_ticks : ℕ
  pub current_process_ptr : Option ℕ

-- A cleared entry of the table.
unfoldable pub zero_process : Process
zero_process = record {
  pid = 0;
  name = replicate max_process_name 0;
  state = process_empty;
  priority = 0;
  runtime = 0;
  stack = 0;
  context = record {
    eax = 0;
    ebx = 0;
    ecx = 0;
    edx = 0;
    esi = 0;
    edi = 0;
    ebp = 0;
    esp = 0;
    eip = 0;
    eflags = 0;
    cr3 = 0;
  };
}

unfoldable pub process : Scheduler → ℕ → Process
process s i = get_or s.processes i zero_process

-- `p->state = ...` for an entry of the table.
unfoldable pub set_state : List Process → ℕ → ProcessState → List Process
set_state ps i state = set ps i (record (get_or ps i zero_process) { state = state })

-- The first loop of `process_init`.
unfoldable pub clear_states : List Process → List Process
clear_states [] = []
clear_states (p ∷ ps) = record p { state = process_empty } ∷ clear_states ps

-- "kernel" and its terminator.
abbrev pub kernel_name : List ℕ
kernel_name = b'k' ∷ b'e' ∷ b'r' ∷ b'n' ∷ b'e' ∷ b'l' ∷ 0 ∷ []

-- The first entry of the table, which is the kernel.
unfoldable pub kernel_process : Process → Process
kernel_process p = record p {
  pid = 0;
  state = process_running;
  priority = 1;
  runtime = 0;
  name = strncpy p.name kernel_name (max_process_name - 1);
}

unfoldable pub process_init : Scheduler → Scheduler
process_init s =
    let ps = clear_states s.processes in
    record s {
      processes = set ps 0 (kernel_process (get_or ps 0 zero_process));
      next_pid = 1;
      current_process = 0;
      current_process_ptr = some 0;
    }

-- The entry that `process_create` fills in.
unfoldable pub new_process :
    (CpuContext → ℕ → ℕ → CpuContext) → Process → ℕ → List ℕ → Option ℕ → Process
new_process context_init p pid name entry_point = record p {
  pid = pid;
  name = strncpy (replicate max_process_name 0) name (max_process_name - 1);
  state = process_ready;
  priority = 1;
  runtime = 0;
  context = elim entry_point [
    | none ↦ p.context
    | some entry ↦ context_init p.context entry ((p.stack + 4096) % 2 ^ 32)
  ];
}

-- The search for a slot: an entry that is empty or a zombie.
unfoldable pub find_slot : Scheduler → Option ℕ
find_slot s = find_index (λ p. is_free p.state) zero_process s.processes 0 max_processes

unfoldable pub process_create :
    (CpuContext → ℕ → ℕ → CpuContext) → List ℕ → Option ℕ → Scheduler → ℤ × Scheduler
process_create context_init name entry_point s = elim (find_slot s) [
  | none ↦ (failure, s)
  | some i ↦ (
    pos i,
    record s {
      processes = set s.processes i (new_process context_init (process s i) i name entry_point);
      next_pid = if leb s.next_pid i then i + 1 else s.next_pid;
    },
  )
]

-- The loop of `schedule`: `n` attempts are left.
unfoldable pub next_ready : Scheduler → ℕ → ℕ → Option ℕ
next_ready s next zero = none
next_ready s next (suc n) =
    let next' = (next + 1) % s.next_pid in
    let rest = next_ready s next' n in if is_ready (process s next').state then some next' else rest

-- The runtime of a process grows, and it is no longer running.
unfoldable pub charge_process : Scheduler → ℕ → Scheduler
charge_process s c =
    let p = process s c in
    record s {
      processes = set s.processes c (record p {
        runtime = (p.runtime + 1) % 2 ^ 32;
        state = if is_running p.state then process_ready else p.state;
      });
    }

-- The first argument is `current_process_ptr`.
unfoldable pub charge_tick : Option ℕ → Scheduler → Scheduler
charge_tick none s = s
charge_tick (some c) s = charge_process s c

-- What follows the search: the process found runs; where none is, the current one goes on if it is
-- ready. The first argument is `current_process_ptr`.
unfoldable pub dispatch : Option ℕ → Option ℕ → Scheduler → Scheduler
dispatch old (some next) s = record s {
  processes = set_state s.processes next process_running;
  current_process = next;
  current_process_ptr = some next;
}
dispatch none none s = s
dispatch (some c) none s =
    if is_ready (process s c).state
    then record s { processes = set_state s.processes c process_running }
    else s

-- The pair of contexts that is handed to `context_switch`, if there is a call.
unfoldable pub switched : Option ℕ → Option ℕ → Option (ℕ × ℕ)
switched (some old) (some next) = if old == next then none else some (old, next)
switched none next = none
switched (some old) none = none

unfoldable pub schedule : Scheduler → Scheduler × Option (ℕ × ℕ)
schedule s0 =
    let s = record s0 { scheduler_ticks = s0.scheduler_ticks + 1 } in
    let charged = charge_tick s.current_process_ptr s in
    let found = next_ready charged charged.current_process max_processes in
    if leb s.next_pid 1
    then (s, none)
    else (dispatch s.current_process_ptr found charged, switched s.current_process_ptr found)

-- The current process becomes a zombie.
unfoldable pub retire : Option ℕ → Scheduler → Scheduler
retire none s = s
retire (some c) s = record s { processes = set_state s.processes c process_zombie }

unfoldable pub process_exit : ℕ → Scheduler → Scheduler × Option (ℕ × ℕ)
process_exit status s = schedule (retire s.current_process_ptr s)

-- A pid is an `int`, so it may be negative.
unfoldable pub process_get : ℤ → Scheduler → Option ℕ
process_get (pos pid) s = if leb max_processes pid then none else some pid
process_get (negsuc pid) s = none
