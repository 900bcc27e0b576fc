-- ===== src/Power/Invariant.antt =====
-- The invariant of the state of kernel/power.c.
use minimalist_os.Base.{ℕ, ◌*◌, ◌/◌, ◌≤◌, ◌≡◌, Bool, true, false, arith, List, [], ◌∷◌}
use minimalist_os.Power.{
  Power, power_init, power_set_state, power_request_sleep, power_request_wake, power_handle_event,
  power_set_cpu_frequency, power_throttle_cpu, power_get_battery_status,
  power_get_battery_percentage, power_is_battery_charging, power_estimate_remaining_time,
  power_get_statistics, power_update_statistics, power_reset_statistics, power_set_fan_speed,
  discharge, charge, copy_speeds, next_temperature, fan_for, fresh_stats, count_seconds, drift,
  regulate,
}

-- The ranges of the state, and the statistics that must show the current values.
pub record IsValid (s : Power) : Type 0 where
  pub state_known : s.current_power_state ≤ 3
  pub percentage_in : s.battery_status.percentage ≤ 100
  pub frequency_low : 100 ≤ s.cpu_frequency
  pub frequency_high : s.cpu_frequency ≤ 2000
  pub cool : s.thermal_state ≤ 80
  pub warm : 30 ≤ s.thermal_state
  pub fan_low : 500 ≤ s.fan_speed
  pub fan_high : s.fan_speed ≤ 5000
  pub frequency_shown : s.power_stats.cpu_frequency ≡ s.cpu_frequency
  pub temperature_shown : s.power_stats.thermal_state ≡ s.thermal_state
  pub fan_shown : s.power_stats.fan_speed ≡ s.fan_speed

-- The calls that change the state.
pub data Op : Type 0 where
  set_state request_sleep handle_event set_cpu_frequency throttle_cpu set_fan_speed : ℕ → Op
  request_wake update_statistics reset_statistics : Op
  battery_percentage battery_charging remaining_time : Op
  battery_status statistics : Bool → Op

pub step : Op → Power → Power
step (set_state n) s = (power_set_state n s).1
step (request_sleep n) s = (power_request_sleep n s).1
step (handle_event n) s = (power_handle_event n s).1
step (set_cpu_frequency n) s = (power_set_cpu_frequency n s).1
step (throttle_cpu n) s = (power_throttle_cpu n s).1
step (set_fan_speed n) s = (power_set_fan_speed n s).1
step request_wake s = (power_request_wake s).1
step update_statistics s = power_update_statistics s
step reset_statistics s = power_reset_statistics s
step battery_percentage s = (power_get_battery_percentage s).1
step battery_charging s = (power_is_battery_charging s).1
step remaining_time s = (power_estimate_remaining_time s).1
step (battery_status b) s = (power_get_battery_status b s).2
step (statistics b) s = (power_get_statistics b s).2

module _ (s : Power) (v : IsValid s) where
  set_state-IsValid : (n : ℕ) → IsValid (power_set_state n s).1
  unfolding power_set_state copy_speeds
  set_state-IsValid n = ground arith

  request_sleep-IsValid : (n : ℕ) → IsValid (power_request_sleep n s).1
  unfolding power_request_sleep
  request_sleep-IsValid n =
      ground
        (arith, set_state-IsValid 0, set_state-IsValid 1, set_state-IsValid 2, set_state-IsValid 3)

  request_wake-IsValid : IsValid (power_request_wake s).1
  unfolding power_request_wake
  request_wake-IsValid = ground (arith, set_state-IsValid 0)

  set_cpu_frequency-IsValid : (n : ℕ) → IsValid (power_set_cpu_frequency n s).1
  unfolding power_set_cpu_frequency
  set_cpu_frequency-IsValid n = ground arith

  throttle_cpu-IsValid : (n : ℕ) → IsValid (power_throttle_cpu n s).1
  unfolding power_throttle_cpu
  throttle_cpu-IsValid n = ground (arith, set_cpu_frequency-IsValid (1000 * n / 100))

  handle_event-IsValid : (n : ℕ) → IsValid (power_handle_event n s).1
  unfolding power_handle_event
  handle_event-IsValid n = ground (
    arith,
    request_sleep-IsValid 3,
    request_sleep-IsValid 4,
    request_wake-IsValid,
    throttle_cpu-IsValid 50,
  )

  set_fan_speed-IsValid : (n : ℕ) → IsValid (power_set_fan_speed n s).1
  unfolding power_set_fan_speed
  set_fan_speed-IsValid n = ground arith

  discharge-IsValid : IsValid (discharge s)
  unfolding discharge
  discharge-IsValid = ground arith

  charge-IsValid : IsValid (charge s)
  unfolding charge
  charge-IsValid = ground arith

  count_seconds-IsValid : IsValid (count_seconds s)
  unfolding count_seconds
  count_seconds-IsValid = ground arith

  drift-IsValid : IsValid (drift s)
  unfolding drift next_temperature
  drift-IsValid = ground arith

  regulate-IsValid : IsValid (regulate s)
  unfolding regulate fan_for
  regulate-IsValid = ground arith

  reset_statistics-IsValid : IsValid (power_reset_statistics s)
  unfolding power_reset_statistics fresh_stats
  reset_statistics-IsValid = ground arith

-- The simulation of the battery and the update of the statistics are sequences of these.
module _ (s : Power) (v : IsValid s) where
  battery-IsValid : IsValid (charge (discharge s))
  battery-IsValid = charge-IsValid (discharge s) (discharge-IsValid s v)

  update-IsValid : IsValid (power_update_statistics s)
  unfolding power_update_statistics
  update-IsValid = regulate-IsValid _ (drift-IsValid _ (count_seconds-IsValid s v))

-- Every call keeps the state valid: the power state is one of the four, the charge is at most 100,
-- the clock, the temperature and the fan stay in their ranges, and the statistics show the current
-- clock, temperature and fan speed.
pub step-IsValid : (op : Op) (s : Power) → IsValid s → IsValid (step op s)
unfolding step power_get_battery_percentage power_is_battery_charging power_estimate_remaining_time
    power_get_battery_status power_get_statistics
step-IsValid (set_state n) s v = set_state-IsValid s v n
step-IsValid (request_sleep n) s v = request_sleep-IsValid s v n
step-IsValid (handle_event n) s v = handle_event-IsValid s v n
step-IsValid (set_cpu_frequency n) s v = set_cpu_frequency-IsValid s v n
step-IsValid (throttle_cpu n) s v = throttle_cpu-IsValid s v n
step-IsValid (set_fan_speed n) s v = set_fan_speed-IsValid s v n
step-IsValid request_wake s v = request_wake-IsValid s v
step-IsValid update_statistics s v = update-IsValid s v
step-IsValid reset_statistics s v = reset_statistics-IsValid s v
step-IsValid battery_percentage s v = battery-IsValid s v
step-IsValid battery_charging s v = battery-IsValid s v
step-IsValid remaining_time s v = battery-IsValid s v
step-IsValid (battery_status true) s v = battery-IsValid s v
step-IsValid (battery_status false) s v = v
step-IsValid (statistics true) s v = update-IsValid s v
step-IsValid (statistics false) s v = v

-- The state after a sequence of calls.
pub run : List Op → Power → Power
run [] s = s
run (op ∷ ops) s = run ops (step op s)

-- After any sequence of calls from a valid state the state is valid.
pub run-IsValid : (ops : List Op) (s : Power) → IsValid s → IsValid (run ops s)
unfolding run
run-IsValid [] s v = v
run-IsValid (op ∷ ops) s v = run-IsValid ops (step op s) (step-IsValid op s v)

-- The values with which the file's variables start, and what `power_init` makes of them.
pub power_init-IsValid :
    (s : Power)
    → s.cpu_frequency ≡ 1000
    → s.thermal_state ≡ 45
    → s.fan_speed ≡ 2000
    → IsValid (power_init s)
unfolding power_init fresh_stats
power_init-IsValid s a b c = ground arith
