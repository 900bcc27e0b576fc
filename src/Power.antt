-- ===== src/Power.antt =====
-- kernel/power.c: power states, the simulated battery, the clock, temperature and fan.
pub mod Battery
pub mod Invariant
pub mod States
mod Tests
use minimalist_os.Base.{
  ℕ, ◌+◌, ◌-◌, ◌*◌, ◌/◌, ◌%◌, ◌^◌, Bool, true, false, not, ◌&&◌, ◌||◌, Option, none, some, ℤ, pos,
  success, failure, ltb, leb, ◌==◌, if◌then◌else◌,
}

abbrev pub power_state_on : ℕ
power_state_on = 0

abbrev pub power_state_sleep : ℕ
power_state_sleep = 1

abbrev pub power_state_hibernate : ℕ
power_state_hibernate = 2

abbrev pub power_state_off : ℕ
power_state_off = 3

pub record BatteryStatus : Type 0 where
  pub present : ℕ
  pub charging : ℕ
  pub percentage : ℕ
  pub remaining_time : ℕ
  pub voltage : ℕ
  pub current : ℕ

pub record PowerStats : Type 0 where
  pub uptime_seconds : ℕ
  pub sleep_time_seconds : ℕ
  pub power_consumption : ℕ
  pub thermal_state : ℕ
  pub cpu_frequency : ℕ
  pub fan_speed : ℕ

-- The static variables of the file, those inside its functions included.
pub record Power : Type 0 where
  pub current_power_state : ℕ
  pub battery_status : BatteryStatus
  pub power_stats : PowerStats
  pub cpu_frequency : ℕ
  pub thermal_state : ℕ
  pub fan_speed : ℕ
  pub discharge_counter : ℕ
  pub charge_counter : ℕ
  pub thermal_counter : ℕ

-- What `memset` and the three assignments behind it leave of the statistics.
unfoldable pub fresh_stats : Power → PowerStats
fresh_stats s = record {
  uptime_seconds = 0;
  sleep_time_seconds = 0;
  power_consumption = 0;
  thermal_state = s.thermal_state;
  cpu_frequency = s.cpu_frequency;
  fan_speed = s.fan_speed;
}

unfoldable pub power_init : Power → Power
power_init s = record s {
  current_power_state = power_state_on;
  battery_status = record {
    present = 1;
    charging = 0;
    percentage = 75;
    remaining_time = 180;
    voltage = 3700;
    current = 500;
  };
  power_stats = record (fresh_stats s) { power_consumption = 5000 };
}

-- The last lines of `power_set_state`.
unfoldable pub copy_speeds : Power → Power
copy_speeds s = record s {
  power_stats = record (s.power_stats) { cpu_frequency = s.cpu_frequency; fan_speed = s.fan_speed };
}

unfoldable pub power_set_state : ℕ → Power → ℤ × Power
power_set_state state s =
    if ltb power_state_off state
    then (failure, s)
    else if state == power_state_on
    then (
      success,
      copy_speeds (record s {
        current_power_state = power_state_on;
        cpu_frequency = 1000;
        fan_speed = 2000;
      }),
    )
    else if state == power_state_sleep
    then (
      success,
      copy_speeds (record s {
        current_power_state = power_state_sleep;
        cpu_frequency = 100;
        fan_speed = 1000;
      }),
    )
    else if state == power_state_hibernate
    then (success, copy_speeds (record s { current_power_state = power_state_hibernate }))
    else if state == power_state_off
    then (success, copy_speeds (record s { current_power_state = power_state_off }))
    else (failure, s)

-- The ACPI states S0, S1, S3, S4 and S5 are 0, 1, 3, 4 and 5.
unfoldable pub power_request_sleep : ℕ → Power → ℤ × Power
power_request_sleep sleep_state s =
    if ltb 5 sleep_state
    then (failure, s)
    else if sleep_state == 0
    then power_set_state power_state_on s
    else if sleep_state == 1 || sleep_state == 3
    then power_set_state power_state_sleep s
    else if sleep_state == 4
    then power_set_state power_state_hibernate s
    else if sleep_state == 5
    then power_set_state power_state_off s
    else (failure, s)

unfoldable pub power_request_wake : Power → ℤ × Power
power_request_wake s =
    if s.current_power_state == power_state_sleep || s.current_power_state == power_state_hibernate
    then power_set_state power_state_on s
    else (failure, s)

unfoldable pub power_set_cpu_frequency : ℕ → Power → ℤ × Power
power_set_cpu_frequency frequency_mhz s =
    if ltb frequency_mhz 100 || ltb 2000 frequency_mhz then (failure, s) else (
      success,
      record s {
        cpu_frequency = frequency_mhz;
        power_stats = record (s.power_stats) { cpu_frequency = frequency_mhz };
      },
    )

unfoldable pub power_throttle_cpu : ℕ → Power → ℤ × Power
power_throttle_cpu percentage s =
    if ltb 100 percentage then (failure, s) else power_set_cpu_frequency (1000 * percentage / 100) s

-- The events sleep, wake, battery low and critical are 1 to 4. The status of the throttling is
-- dropped.
unfoldable pub power_handle_event : ℕ → Power → ℤ × Power
power_handle_event event s =
    if event == 1
    then power_request_sleep 3 s
    else if event == 2
    then power_request_wake s
    else if event == 3
    then (success, (power_throttle_cpu 50 s).1)
    else if event == 4
    then power_request_sleep 4 s
    else (failure, s)

-- The first block of `power_get_battery_status`.
unfoldable pub discharge : Power → Power
discharge s =
    let b = s.battery_status in
    if not (b.present == 0) && b.charging == 0
    then (if leb 100 ((s.discharge_counter + 1) % 2 ^ 32)
        then (if ltb 0 b.percentage
            then record s {
              battery_status = record b {
                percentage = b.percentage - 1;
                remaining_time =
                    if ltb 0 b.remaining_time then b.remaining_time - 1 else b.remaining_time;
              };
              discharge_counter = 0;
            }
            else record s { discharge_counter = 0 })
        else record s { discharge_counter = (s.discharge_counter + 1) % 2 ^ 32 })
    else s

-- The second block.
unfoldable pub charge : Power → Power
charge s =
    let b = s.battery_status in
    if not (b.charging == 0) && ltb b.percentage 100
    then (if leb 50 ((s.charge_counter + 1) % 2 ^ 32)
        then record s {
          battery_status = record b { percentage = b.percentage + 1; remaining_time = 240 };
          charge_counter = 0;
        }
        else record s { charge_counter = (s.charge_counter + 1) % 2 ^ 32 })
    else s

-- The Boolean says whether the caller's pointer is non-null.
unfoldable pub power_get_battery_status : Bool → Power → ℤ × Option BatteryStatus × Power
power_get_battery_status status s =
    if status
    then (let s' = charge (discharge s) in (success, some s'.battery_status, s'))
    else (failure, none, s)

-- The readings of the battery go through a local status, so each is one more call of the simulation.
unfoldable pub power_get_battery_percentage : Power → ℕ × Power
power_get_battery_percentage s = let s' = charge (discharge s) in (s'.battery_status.percentage, s')

unfoldable pub power_is_battery_charging : Power → ℕ × Power
power_is_battery_charging s = let s' = charge (discharge s) in (s'.battery_status.charging, s')

unfoldable pub power_estimate_remaining_time : Power → ℕ × Power
power_estimate_remaining_time s =
    let s' = charge (discharge s) in (s'.battery_status.remaining_time, s')

-- The parts of `power_update_statistics`, in order.
unfoldable pub count_seconds : Power → Power
count_seconds s =
    let t = s.power_stats in
    if s.current_power_state == power_state_on
    then record s { power_stats = record t { uptime_seconds = (t.uptime_seconds + 1) % 2 ^ 32 } }
    else if s.current_power_state == power_state_sleep
    then record s {
      power_stats = record t { sleep_time_seconds = (t.sleep_time_seconds + 1) % 2 ^ 32 };
    }
    else s

unfoldable pub next_temperature : Power → ℕ
next_temperature s =
    if ltb 800 s.cpu_frequency
    then if ltb s.thermal_state 80 then s.thermal_state + 1 else 80
    else if ltb 30 s.thermal_state
    then s.thermal_state - 1
    else 30

unfoldable pub drift : Power → Power
drift s =
    if leb 100 ((s.thermal_counter + 1) % 2 ^ 32)
    then record s {
      thermal_state = next_temperature s;
      power_stats = record (s.power_stats) { thermal_state = next_temperature s };
      thermal_counter = 0;
    }
    else record s { thermal_counter = (s.thermal_counter + 1) % 2 ^ 32 }

unfoldable pub fan_for : ℕ → ℕ
fan_for temperature = if ltb 60 temperature then 3000 else if ltb 40 temperature then 2000 else 1000

unfoldable pub consumption : Power → ℕ
consumption s =
    if s.current_power_state == power_state_on
    then 3000 + s.cpu_frequency / 100 * 200
    else if s.current_power_state == power_state_sleep
    then 500
    else 100

unfoldable pub regulate : Power → Power
regulate s = record s {
  fan_speed = fan_for s.thermal_state;
  power_stats = record (s.power_stats) {
    fan_speed = fan_for s.thermal_state;
    power_consumption = consumption s;
  };
}

unfoldable pub power_update_statistics : Power → Power
power_update_statistics s = regulate (drift (count_seconds s))

unfoldable pub power_get_statistics : Bool → Power → ℤ × Option PowerStats × Power
power_get_statistics stats s =
    if stats
    then (let s' = power_update_statistics s in (success, some s'.power_stats, s'))
    else (failure, none, s)

unfoldable pub power_reset_statistics : Power → Power
power_reset_statistics s = record s { power_stats = fresh_stats s }

unfoldable pub power_set_fan_speed : ℕ → Power → ℤ × Power
power_set_fan_speed speed_rpm s =
    if ltb speed_rpm 500 || ltb 5000 speed_rpm then (failure, s) else (
      success,
      record s {
        fan_speed = speed_rpm;
        power_stats = record (s.power_stats) { fan_speed = speed_rpm };
      },
    )
