-- ===== src/Power/Tests.antt =====
-- Tests of power management, and the theorems at the state after initialisation.
use minimalist_os.Base.{ℕ, ◌≡◌, refl, [], ◌∷◌}
use minimalist_os.Power.{
  Power, power_init, power_handle_event, power_request_sleep, power_set_state, copy_speeds,
}
use minimalist_os.Power.Invariant.{
  IsValid, handle_event, battery_percentage, set_fan_speed, run, run-IsValid, power_init-IsValid,
}

-- The values with which the static variables start.
abbrev loaded : Power
loaded = record {
  current_power_state = 0;
  battery_status = record {
    present = 0;
    charging = 0;
    percentage = 0;
    remaining_time = 0;
    voltage = 0;
    current = 0;
  };
  power_stats = record {
    uptime_seconds = 0;
    sleep_time_seconds = 0;
    power_consumption = 0;
    thermal_state = 0;
    cpu_frequency = 0;
    fan_speed = 0;
  };
  cpu_frequency = 1000;
  thermal_state = 45;
  fan_speed = 2000;
  discharge_counter = 0;
  charge_counter = 0;
  thermal_counter = 0;
}

sleeping : (power_handle_event 1 loaded).1.current_power_state ≡ 1
unfolding power_handle_event power_request_sleep power_set_state copy_speeds
sleeping = refl

run-IsValid_example :
    IsValid (run (handle_event 1 ∷ battery_percentage ∷ set_fan_speed 700 ∷ []) (power_init loaded))
run-IsValid_example =
    run-IsValid (handle_event 1 ∷ battery_percentage ∷ set_fan_speed 700 ∷ []) (power_init loaded)
      (power_init-IsValid loaded refl refl refl)

-- The battery low event.
abbrev low : ℕ
low = 3
