-- ===== src/Process/Schedule.antt =====
-- The choice of `schedule`, in the cyclic order of the table.
pub mod Fair
use native.Mathlib.Nat.{mod-add-mod, mod-eq_of_lt, mod-eq-sub-mod, mod-lt}
use mathlib.Core.Path.{subst}
use native.Mathlib.Decide.{dec_lt}
use minimalist_os.Base.{
  ℕ, zero, suc, ◌+◌, ◌-◌, ◌≤◌, ◌<◌, ◌%◌, ◌≡◌, refl, sym, ap, ◌∙◌, Bool, true, false, none, some,
  leb, ◌||◌, ◌⊎◌, arith, inl, inr, Option-cases, Bool-cases,
}
use minimalist_os.Process.{
  Scheduler, process_running, is_running, is_ready, process, next_ready, charge_tick,
  charge_process, dispatch, schedule, max_processes,
}
use minimalist_os.Process.Invariant.{
  IsValid, charged-idle, charged-ready, dispatched-IsValid, length-charge_process, state-set_state,
}

-- The place `d` steps after the current one.
abbrev pub place : Scheduler → ℕ → ℕ → ℕ
place s next d = (next + d) % s.next_pid

-- What a search over `n` places that finds `k` says: `k` is the nearest ready one.
pub record Nearest (s : Scheduler) (next n k : ℕ) : Type 0 where
  pub distance : ℕ
  pub positive : 0 < distance
  pub within : distance ≤ n
  pub at : k ≡ place s next distance
  pub ready : is_ready (process s k).state ≡ true
  pub skipped : (e : ℕ) → 0 < e → e < distance → is_ready (process s (place s next e)).state ≡ false

place-suc : (s : Scheduler) (next e : ℕ) → place s (place s next 1) e ≡ place s next (suc e)
place-suc s next e =
    mod-add-mod (next + 1) s.next_pid e
    ∙ ap (λ t. t % s.next_pid) {x = next + 1 + e} {y = next + suc e} (omega arith)

-- The first place and those after it.
skipped-suc :
    (s : Scheduler) (next d e : ℕ)
    → is_ready (process s (place s next 1)).state ≡ false
    → ((e : ℕ) → 0 < e → e < d → is_ready (process s (place s (place s next 1) e)).state ≡ false)
    → 0 < e
    → e < suc d
    → is_ready (process s (place s next e)).state ≡ false
skipped-suc s next d zero miss rest lo hi = absurd (omega arith)
skipped-suc s next d (suc zero) miss rest lo hi = miss
skipped-suc s next d (suc (suc e)) miss rest lo hi =
    ap (λ t. is_ready (process s t).state) (sym (place-suc s next (suc e)))
    ∙ rest (suc e) (omega arith) (omega arith)

next_ready-Nearest :
    (s : Scheduler) (next n k : ℕ) → next_ready s next n ≡ some k → Nearest s next n k
unfolding next_ready
next_ready-Nearest s next zero k h = absurd (ground arith)
next_ready-Nearest s next (suc n) k h =
    elim (Bool-cases (is_ready (process s (place s next 1)).state)) [
      | inl hit ↦ record {
        distance = 1;
        positive = omega arith;
        within = omega arith;
        at = ground arith;
        ready = let e : place s next 1 ≡ k = ground arith in rw (← e) hit;
        skipped = λ e lo hi. absurd (omega arith);
      }
      | inr miss ↦
          let f = next_ready-Nearest s (place s next 1) n k (rw miss at h) in
          record {
            distance = suc f.distance;
            positive = omega arith;
            within = omega (arith, f.within);
            at = f.at ∙ place-suc s next f.distance;
            ready = f.ready;
            skipped = λ e lo hi. skipped-suc s next f.distance e miss f.skipped lo hi;
          }
    ]

next_ready-none :
    (s : Scheduler) (next n : ℕ)
    → next_ready s next n ≡ none
    → (e : ℕ) → 0 < e
    → e ≤ n
    → is_ready (process s (place s next e)).state ≡ false
unfolding next_ready
next_ready-none s next zero h e pos le = absurd (omega arith)
next_ready-none s next (suc n) h zero pos le = absurd (omega arith)
next_ready-none s next (suc n) h (suc zero) pos le = ground arith
next_ready-none s next (suc n) h (suc (suc e)) pos le =
    ap (λ t. is_ready (process s t).state) (sym (place-suc s next (suc e)))
    ∙ next_ready-none s (place s next 1) n (ground arith) (suc e) (omega arith) (omega arith)

-- Every process is a place at most `next_pid` steps away.
place-of :
    (s : Scheduler) (next j : ℕ)
    → next < s.next_pid
    → j < s.next_pid
    → (e : ℕ) × (0 < e) × (e ≤ s.next_pid) × (j ≡ place s next e)
place-of s next j hn hj = elim (dec_lt next j) [
  | yes p ↦ (
    j - next,
    omega arith,
    omega arith,
    omega (arith, mod-eq_of_lt {n = next + (j - next)} {m = s.next_pid} (omega arith)),
  )
  | no p ↦ (
    j + s.next_pid - next,
    omega arith,
    omega arith,
    omega (
      arith,
      mod-eq-sub-mod {n = next + (j + s.next_pid - next)} {m = s.next_pid} (omega arith),
      mod-eq_of_lt {n = next + (j + s.next_pid - next) - s.next_pid} {m = s.next_pid} (omega arith),
    ),
  )
]

-- A process that may run next: it is ready, or it is the one that runs now.
unfoldable pub runnable : Scheduler → ℕ → Bool
runnable s j = is_ready (process s j).state || is_running (process s j).state

-- The state in which the search runs, for a valid table: the ticks have grown and the current
-- process is charged.
ticked : Scheduler → Scheduler
ticked s = record s { scheduler_ticks = s.scheduler_ticks + 1 }

module _ (s : Scheduler) (valid : IsValid s) where
  ticked-IsValid : IsValid (ticked s)
  unfolding ticked process
  ticked-IsValid = record {
    table = valid.table;
    pids = valid.pids;
    current = valid.current;
    pointer = valid.pointer;
    alone = valid.alone;
  }

  pub charged : Scheduler
  charged = charge_process (ticked s) s.current_process

  pub schedule_of :
      1 < s.next_pid
      → (schedule s).0
        ≡ dispatch
            (some s.current_process)
            (next_ready charged s.current_process max_processes)
            charged
  unfolding schedule charge_tick charge_process charged ticked
  schedule_of more =
      let several : leb s.next_pid 1 ≡ false = ground arith in
      rw several (
        ap
          (λ o.
            let c = charge_tick o (ticked s) in
            dispatch o (next_ready c c.current_process max_processes) c)
          valid.pointer)

  schedule-few : s.next_pid ≤ 1 → (schedule s).0 ≡ ticked s
  unfolding schedule ticked
  schedule-few few = ground arith

  charged-runnable : (j : ℕ) → is_ready (process charged j).state ≡ runnable s j
  unfolding charged runnable ticked process
  charged-runnable j = charged-ready (ticked s) ticked-IsValid j

  schedule-found :
      (k : ℕ)
      → 1 < s.next_pid
      → next_ready charged s.current_process max_processes ≡ some k
      → (schedule s).0 ≡ dispatch (some s.current_process) (some k) charged
  schedule-found k more found =
      schedule_of more ∙ ap (λ o. dispatch (some s.current_process) o charged) found

  schedule-stay :
      1 < s.next_pid
      → next_ready charged s.current_process max_processes ≡ none
      → (schedule s).0 ≡ dispatch (some s.current_process) none charged
  schedule-stay more missing =
      schedule_of more ∙ ap (λ o. dispatch (some s.current_process) o charged) missing

  dispatch-IsValid :
      (k : ℕ) → k < s.next_pid → IsValid (dispatch (some s.current_process) (some k) charged)
  unfolding dispatch charged charge_process ticked
  dispatch-IsValid k lt =
      dispatched-IsValid (ticked s) ticked-IsValid k
        (dispatch (some s.current_process) (some k) charged) lt refl refl refl refl

  -- A search that finds nothing leaves nothing ready.
  missing-idle :
      next_ready charged s.current_process max_processes ≡ none
      → (j : ℕ) → j < s.next_pid
      → runnable s j ≡ false
  unfolding charged charge_process ticked
  missing-idle missing j lt =
      let (e, pos, le, at) = place-of s s.current_process j valid.current lt in
      let none_there =
        next_ready-none charged s.current_process max_processes missing e pos
          (omega (arith, le, valid.pids)) in
      sym (charged-runnable j) ∙ ap (λ t. is_ready (process charged t).state) at ∙ none_there

  charged-IsValid : IsValid charged
  unfolding charged charge_process ticked
  charged-IsValid = record {
    table = length-charge_process (ticked s) ticked-IsValid;
    pids = valid.pids;
    current = valid.current;
    pointer = valid.pointer;
    alone = λ j run. absurd (ground (arith, charged-idle (ticked s) ticked-IsValid j));
  }

  dispatch-stay :
      next_ready charged s.current_process max_processes ≡ none
      → dispatch (some s.current_process) none charged ≡ charged
  unfolding dispatch
  dispatch-stay missing =
      let idle : is_ready (process charged s.current_process).state ≡ false =
        charged-runnable s.current_process ∙ missing-idle missing s.current_process valid.current in
      rw idle refl

  -- The two outcomes of a call where there are several processes.
  pub schedule-cases :
      1 < s.next_pid
      → ((k : ℕ) × Nearest charged s.current_process max_processes k
          × ((schedule s).0 ≡ dispatch (some s.current_process) (some k) charged))
        ⊎ ((j : ℕ) → j < s.next_pid → runnable s j ≡ false) × ((schedule s).0 ≡ charged)
  schedule-cases more = elim (Option-cases (next_ready charged s.current_process max_processes)) [
    | inl missing ↦ inr (missing-idle missing, schedule-stay more missing ∙ dispatch-stay missing)
    | inr (k, found) ↦ inl (
      k,
      next_ready-Nearest charged s.current_process max_processes k found,
      schedule-found k more found,
    )
  ]

  Nearest-lt : (k : ℕ) → Nearest charged s.current_process max_processes k → k < s.next_pid
  unfolding charged charge_process ticked
  Nearest-lt k f = omega (
    arith,
    f.at,
    valid.current,
    mod-lt (s.current_process + f.distance) {m = s.next_pid} (omega (arith, valid.current)),
  )

pub schedule-IsValid : (s : Scheduler) → IsValid s → IsValid (schedule s).0
schedule-IsValid s valid = elim (dec_lt 1 s.next_pid) [
  | yes more ↦ elim (schedule-cases s valid more) [
    | inl (k, f, e) ↦
        subst (λ t. IsValid t) (sym e) (dispatch-IsValid s valid k (Nearest-lt s valid k f))
    | inr (none_ready, e) ↦ subst (λ t. IsValid t) (sym e) (charged-IsValid s valid)
  ]
  | no few ↦
      subst (λ t. IsValid t) (sym (schedule-few s valid (omega arith))) (ticked-IsValid s valid)
]

-- What a call of `schedule` in state `s` elects: the process that now runs is the nearest runnable
-- one after the old current process, which itself comes last.
pub record Elected (s s' : Scheduler) : Type 0 where
  pub distance : ℕ
  pub positive : 0 < distance
  pub within : distance ≤ max_processes
  pub at : s'.current_process ≡ place s s.current_process distance
  pub was_runnable : runnable s s'.current_process ≡ true
  pub runs : is_running (process s' s'.current_process).state ≡ true
  pub skipped : (e : ℕ) → 0 < e → e < distance → runnable s (place s s.current_process e) ≡ false

dispatch-runs :
    (s : Scheduler) (valid : IsValid s) (k : ℕ)
    → k < s.next_pid
    → is_running (process (dispatch (some s.current_process) (some k) (charged s valid)) k).state
      ≡ true
unfolding dispatch process
dispatch-runs s valid k lt =
    let c = charged s valid in
    ground (
      arith,
      state-set_state c.processes k k process_running
          (omega (arith, (charged-IsValid s valid).table, valid.pids)),
    )

dispatch-Elected :
    (s : Scheduler) (valid : IsValid s) (k : ℕ)
    → Nearest (charged s valid) s.current_process max_processes k
    → Elected s (dispatch (some s.current_process) (some k) (charged s valid))
unfolding dispatch charged charge_process ticked
dispatch-Elected s valid k f = record {
  distance = f.distance;
  positive = f.positive;
  within = f.within;
  at = f.at;
  was_runnable = sym (charged-runnable s valid k) ∙ f.ready;
  runs = dispatch-runs s valid k (Nearest-lt s valid k f);
  skipped =
      λ e lo hi. sym (charged-runnable s valid (place s s.current_process e)) ∙ f.skipped e lo hi;
}

-- On a valid state with several processes, `schedule` elects the first runnable process after the
-- current one in the cyclic order of the table, or no process is runnable and the current one stays.
pub schedule-Elected :
    (s : Scheduler)
    → IsValid s
    → 1 < s.next_pid
    → Elected s (schedule s).0
      ⊎ ((j : ℕ) → j < s.next_pid → runnable s j ≡ false)
        × ((schedule s).0.current_process ≡ s.current_process)
unfolding charged charge_process ticked
schedule-Elected s valid more = elim (schedule-cases s valid more) [
  | inl (k, f, e) ↦ inl (subst (λ t. Elected s t) (sym e) (dispatch-Elected s valid k f))
  | inr (none_ready, e) ↦ inr (none_ready, ap (λ t. t.current_process) e)
]
