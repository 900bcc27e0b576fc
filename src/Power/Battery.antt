-- ===== src/Power/Battery.antt =====
-- The charge of the simulated battery over many readings.
use minimalist_os.Base.{ℕ, zero, suc, ◌+◌, ◌-◌, ◌<◌, ◌≡◌, refl, ap, ◌∙◌, ◌≢◌, arith}
use minimalist_os.Power.{Power, power_get_battery_percentage, discharge, charge}

-- The state after `n` readings of the percentage.
pub readings : ℕ → Power → Power
readings zero s = s
readings (suc n) s = (power_get_battery_percentage (readings n s)).1

module _ (s : Power) (present : s.battery_status.present ≢ 0)
    (not_charging : s.battery_status.charging ≡ 0) where
  counts :
      (n : ℕ)
      → n < 99
      → (power_get_battery_percentage (record s { discharge_counter = n })).1
        ≡ record s { discharge_counter = n + 1 }
  unfolding power_get_battery_percentage discharge charge
  counts n h = ground arith

  readings_count :
      (n : ℕ)
      → n < 100
      → s.discharge_counter ≡ 0
      → readings n s ≡ record s { discharge_counter = n }
  unfolding readings
  readings_count zero h e = ground arith
  readings_count (suc n) h e =
      ap (λ t. (power_get_battery_percentage t).1) (readings_count n (omega arith) e)
      ∙ counts n (omega arith)
      ∙ ap (λ k. record s { discharge_counter = k }) (omega arith)

  last_reading :
      (n : ℕ)
      → n ≡ 99
      → 0 < s.battery_status.percentage
      → let s' = (power_get_battery_percentage (record s { discharge_counter = n })).1 in
        (s'.battery_status.percentage ≡ s.battery_status.percentage - 1)
        × (s'.battery_status.remaining_time ≡ s.battery_status.remaining_time - 1)
        × (s'.discharge_counter ≡ 0)
  unfolding power_get_battery_percentage discharge charge
  last_reading n h p = ground arith

-- With a battery that is present and not charging, a hundred readings from a counter of 0 take off
-- one percent and one minute (none below 0), and leave the counter at 0 for the next hundred.
readings-hundred :
    (s : Power)
    → s.battery_status.present ≢ 0
    → s.battery_status.charging ≡ 0
    → s.discharge_counter ≡ 0
    → 0 < s.battery_status.percentage
    → let s' = readings 100 s in
      (s'.battery_status.percentage ≡ s.battery_status.percentage - 1)
      × (s'.battery_status.remaining_time ≡ s.battery_status.remaining_time - 1)
      × (s'.discharge_counter ≡ 0)
unfolding readings power_get_battery_percentage
readings-hundred s present not_charging e p =
    let before = readings_count s present not_charging 99 (omega arith) e in
    rw before (last_reading s present not_charging 99 refl p)
