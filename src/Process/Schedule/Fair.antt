-- ===== src/Process/Schedule/Fair.antt =====
-- How long a runnable process waits for the processor.
use native.Mathlib.Nat.{mod-add-mod}
use native.Mathlib.Decide.{dec_lt}
use minimalist_os.Base.{
  ℕ, zero, suc, ◌+◌, ◌-◌, ◌≤◌, ◌<◌, ◌%◌, ◌≡◌, sym, ap, ◌∙◌, true, some, arith, inl, inr,
}
use minimalist_os.Process.{Scheduler, process_running, process, dispatch, schedule, charge_process}
use minimalist_os.Process.Invariant.{IsValid, state-set_state}
use minimalist_os.Process.Schedule.{
  place, runnable, place-of, charged, charged-IsValid, charged-runnable, schedule-cases,
  schedule-Elected, schedule-IsValid, Nearest-lt, ticked,
}

-- The state after `n` timer interrupts.
unfoldable pub ticks : ℕ → Scheduler → Scheduler
ticks zero s = s
ticks (suc n) s = ticks n (schedule s).0

-- A tick takes no process out of the running, and leaves the size of the table.
module _ (s : Scheduler) (valid : IsValid s) where
  dispatch-runnable :
      (k j : ℕ)
      → k < s.next_pid
      → runnable s j ≡ true
      → runnable (dispatch (some s.current_process) (some k) (charged s valid)) j ≡ true
  unfolding dispatch runnable process
  dispatch-runnable k j lt h =
      let c = charged s valid in
      ground (
        arith,
        state-set_state c.processes k j process_running
            (omega (arith, (charged-IsValid s valid).table, valid.pids)),
        charged-runnable s valid j,
      )

  charged-runnable_after : (j : ℕ) → runnable s j ≡ true → runnable (charged s valid) j ≡ true
  unfolding runnable
  charged-runnable_after j h = ground (arith, charged-runnable s valid j)

  schedule-runnable :
      (j : ℕ) → 1 < s.next_pid → runnable s j ≡ true → runnable (schedule s).0 j ≡ true
  schedule-runnable j more h = elim (schedule-cases s valid more) [
    | inl (k, f, e) ↦ ap (λ t. runnable t j) e ∙ dispatch-runnable k j (Nearest-lt s valid k f) h
    | inr (none_ready, e) ↦ ap (λ t. runnable t j) e ∙ charged-runnable_after j h
  ]

  next_pid-schedule : 1 < s.next_pid → (schedule s).0.next_pid ≡ s.next_pid
  unfolding dispatch charged charge_process ticked
  next_pid-schedule more = elim (schedule-cases s valid more) [
    | inl (k, f, e) ↦ ap (λ t. t.next_pid) e
    | inr (none_ready, e) ↦ ap (λ t. t.next_pid) e
  ]

-- The process `e` places after the current one is elected within `e` ticks.
within :
    (n : ℕ) (s : Scheduler) (e j : ℕ)
    → IsValid s
    → 1 < s.next_pid
    → e ≤ n
    → 0 < e
    → j ≡ place s s.current_process e
    → j < s.next_pid
    → runnable s j ≡ true
    → (k : ℕ) × (k ≤ e) × ((ticks k s).current_process ≡ j)
unfolding ticks
within zero s e j valid more le pos at lt h = absurd (omega arith)
within (suc n) s e j valid more le pos at lt h = elim (schedule-Elected s valid more) [
  | inr (none_ready, same) ↦ absurd (ground (arith, none_ready j lt))
  | inl f ↦ elim (dec_lt f.distance e) [
    | yes closer ↦
        let s' = (schedule s).0 in
        let np = next_pid-schedule s valid more in
        let e' = e - f.distance in
        let shift : (s.current_process + e) % s.next_pid
            ≡ ((s.current_process + f.distance) % s.next_pid + e') % s.next_pid =
          ap (λ t. t % s.next_pid) {x = s.current_process + e}
            {y = s.current_process + f.distance + e'} (omega arith)
          ∙ sym (mod-add-mod (s.current_process + f.distance) s.next_pid e') in
        let at' : j ≡ place s' s'.current_process e' =
          at
          ∙ shift
          ∙ ap (λ t. (t + e') % s.next_pid) (sym f.at)
          ∙ ap (λ t. (s'.current_process + e') % t) (sym np) in
        let (k, bound, done) =
          within n s' e' j (schedule-IsValid s valid) (omega arith) (omega (arith, f.positive))
            (omega arith) at' (omega arith) (schedule-runnable s valid j more h) in
        (suc k, omega (arith, f.positive), done)
    | no not_closer ↦ elim (dec_lt e f.distance) [
      | yes skipped ↦ absurd (ground (arith, f.skipped e pos skipped, ap (runnable s) at))
      | no not_skipped ↦ (
        1,
        omega arith,
        f.at ∙ ap (place s s.current_process) {x = f.distance} {y = e} (omega arith) ∙ sym at,
      )
    ]
  ]
]

-- On a valid table with several processes every runnable process gets the processor: within as many
-- timer ticks as the table has processes it is the current one.
pub schedule-fair :
    (s : Scheduler) (j : ℕ)
    → IsValid s
    → 1 < s.next_pid
    → j < s.next_pid
    → runnable s j ≡ true
    → (k : ℕ) × (k ≤ s.next_pid) × ((ticks k s).current_process ≡ j)
schedule-fair s j valid more lt h =
    let (e, pos, le, at) = place-of s s.current_process j valid.current lt in
    let (k, bound, done) = within e s e j valid more (omega arith) pos at lt h in
    (k, omega arith, done)
