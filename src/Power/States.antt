-- ===== src/Power/States.antt =====
-- The power states as a state machine: which events move the system where.
use minimalist_os.Base.{ℕ, ◌≡◌, arith, ℤ, success, failure, ◌==◌, ◌||◌, if◌then◌else◌}
use minimalist_os.Power.{
  Power, power_state_on, power_state_sleep, power_state_hibernate, power_set_state,
  power_request_sleep, power_request_wake, power_handle_event, copy_speeds, power_set_cpu_frequency,
  power_throttle_cpu,
}

-- The target of an event, where it is accepted.
pub next_state : ℕ → ℕ → ℤ × ℕ
next_state event from =
    if event == 1
    then (success, power_state_sleep)
    else if event == 2
    then (if from == power_state_sleep || from == power_state_hibernate
        then (success, power_state_on)
        else (failure, from))
    else if event == 3
    then (success, from)
    else if event == 4
    then (success, power_state_hibernate)
    else (failure, from)

-- `power_handle_event` accepts an event exactly where the state machine has a transition for it, and
-- moves to its target; a refused event changes nothing at all. On battery low the clock is halved.
pub power_handle_event_lem :
    (event : ℕ) (s : Power)
    → let (status, s') = power_handle_event event s in
      (next_state event s.current_power_state ≡ (status, s'.current_power_state))
      × (status ≡ failure → s' ≡ s)
      × (event ≡ 3 → s'.cpu_frequency ≡ 500)
      × (event ≡ 1 → s'.cpu_frequency ≡ 100)
unfolding power_handle_event power_request_sleep power_request_wake power_set_state copy_speeds
    power_throttle_cpu power_set_cpu_frequency next_state
power_handle_event_lem event s = ground arith

-- Waking is the inverse of sleeping: from the running state a sleep event and a wake event lead back
-- to it with the clock at 1000 MHz and the fan at 2000 RPM.
wake-sleep :
    (s : Power)
    → let s' = (power_handle_event 2 (power_handle_event 1 s).1).1 in
      (s'.current_power_state ≡ power_state_on) × (s'.cpu_frequency ≡ 1000) × (s'.fan_speed ≡ 2000)
unfolding power_handle_event power_request_sleep power_request_wake power_set_state copy_speeds
wake-sleep s = ground arith
