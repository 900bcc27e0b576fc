-- ===== src/Monitor.antt =====
-- kernel/monitor.c: the log, the statistics and the timers.
pub mod Log
mod Tests
use minimalist_os.Base.{
  ℕ, zero, suc, ◌+◌, ◌-◌, ◌*◌, ◌/◌, ◌%◌, ◌^◌, List, [], ◌∷◌, Bool, true, false, not, ◌&&◌, ◌||◌,
  Option, none, some, ℤ, success, failure, is_zero, ltb, leb, ◌==◌, if◌then◌else◌, get_or, set,
  replicate,
}
use minimalist_os.Base.Search.{find_index}
use minimalist_os.CString.{strcmp, strlen, strncpy, store_name}

abbrev pub log_buffer_size : ℕ
log_buffer_size = 256

abbrev pub max_timers : ℕ
max_timers = 16

pub record LogEntry : Type 0 where
  pub timestamp : ℕ
  pub level : ℕ
  pub source : ℕ
  pub length : ℕ
  pub message : List ℕ

pub record SystemStats : Type 0 where
  pub total_processes : ℕ
  pub running_processes : ℕ
  pub sleeping_processes : ℕ
  pub total_memory : ℕ
  pub used_memory : ℕ
  pub free_memory : ℕ
  pub total_cpu_time : ℕ
  pub idle_cpu_time : ℕ
  pub system_calls_count : ℕ
  pub interrupts_count : ℕ

pub record PerformanceMetrics : Type 0 where
  pub cpu_usage_percent : ℕ
  pub memory_usage_percent : ℕ
  pub process_count : ℕ
  pub uptime_seconds : ℕ
  pub context_switches : ℕ
  pub page_faults : ℕ

pub record TimerEntry : Type 0 where
  pub name : List ℕ
  pub start_time : ℕ
  pub total_time : ℕ
  pub active : Bool

pub record Monitor : Type 0 where
  pub log_buffer : List LogEntry
  pub log_index : ℕ
  pub log_count : ℕ
  pub system_stats : SystemStats
  pub performance_metrics : PerformanceMetrics
  pub timers : List TimerEntry
  pub uptime_seconds : ℕ
  pub timestamp_counter : ℕ

-- What `memset` leaves.
unfoldable pub zero_entry : LogEntry
zero_entry = record { timestamp = 0; level = 0; source = 0; length = 0; message = replicate 256 0 }

unfoldable pub zero_timer : TimerEntry
zero_timer = record { name = replicate 32 0; start_time = 0; total_time = 0; active = false }

-- The length that is stored: at most 255.
unfoldable pub cut : ℕ → ℕ
cut len = if ltb 255 len then 255 else len

-- The entry that `monitor_log` leaves at `log_index`.
unfoldable pub make_entry : Monitor → ℕ → ℕ → List ℕ → LogEntry
make_entry s level source message =
    let old = get_or s.log_buffer s.log_index zero_entry in
    let n = cut (strlen message) in
    record {
      timestamp = (s.timestamp_counter + 1) % 2 ^ 32;
      level = level;
      source = source;
      length = n;
      message = set (strncpy old.message message n) n 0;
    }

unfoldable pub monitor_log : ℕ → ℕ → Option (List ℕ) → Monitor → Monitor
monitor_log level source none s = s
monitor_log level source (some message) s = record s {
  timestamp_counter = (s.timestamp_counter + 1) % 2 ^ 32;
  log_buffer = set s.log_buffer s.log_index (make_entry s level source message);
  log_index = (s.log_index + 1) % log_buffer_size;
  log_count = if ltb s.log_count log_buffer_size then s.log_count + 1 else s.log_count;
  system_stats = record (s.system_stats) {
    system_calls_count = (s.system_stats.system_calls_count + 1) % 2 ^ 32;
  };
}

-- The arguments behind the format are dropped.
unfoldable pub monitor_log_printf : ℕ → ℕ → Option (List ℕ) → Monitor → Monitor
monitor_log_printf level source format s = monitor_log level source format s

-- `log_index - log_count + index` is a sum of 32 bits.
unfoldable pub actual_index : Monitor → ℕ → ℕ
actual_index s index = (s.log_index + (2 ^ 32 - s.log_count) + index) % 2 ^ 32 % log_buffer_size

-- The Boolean says whether the pointer is non-null; the option is what is stored through it.
unfoldable pub monitor_get_log_entry : ℕ → Bool → Monitor → ℤ × Option LogEntry
monitor_get_log_entry index entry s =
    if not entry || leb s.log_count index
    then (failure, none)
    else (success, some (get_or s.log_buffer (actual_index s index) zero_entry))

-- The greeting of `monitor_init` is an argument.
unfoldable pub monitor_init : List ℕ → Monitor → Monitor
monitor_init greeting s = monitor_log 1 0 (some greeting) (record s {
  log_buffer = replicate log_buffer_size zero_entry;
  log_index = 0;
  log_count = 0;
  system_stats = record {
    total_processes = 0;
    running_processes = 0;
    sleeping_processes = 0;
    total_memory = 1024 * 1024;
    used_memory = 0;
    free_memory = 1024 * 1024;
    total_cpu_time = 0;
    idle_cpu_time = 0;
    system_calls_count = 0;
    interrupts_count = 0;
  };
  performance_metrics = record {
    cpu_usage_percent = 0;
    memory_usage_percent = 0;
    process_count = 0;
    uptime_seconds = 0;
    context_switches = 0;
    page_faults = 0;
  };
  timers = replicate max_timers zero_timer;
})

-- The system statistics that `monitor_update_stats` computes for an uptime.
unfoldable pub next_stats : ℕ → SystemStats → SystemStats
next_stats uptime t =
    let total = uptime * 100 % 2 ^ 32 in
    record t {
      total_processes = 8;
      running_processes = 3;
      sleeping_processes = 5;
      used_memory = (t.total_memory + (2 ^ 32 - t.free_memory)) % 2 ^ 32;
      total_cpu_time = total;
      idle_cpu_time = total / 4;
    }

-- The idle time is never more than the total, so that difference does not wrap around.
unfoldable pub metrics_of : ℕ → SystemStats → PerformanceMetrics
metrics_of uptime t = record {
  cpu_usage_percent =
      (t.total_cpu_time - t.idle_cpu_time) * 100 % 2 ^ 32 / ((t.total_cpu_time + 1) % 2 ^ 32);
  memory_usage_percent = t.used_memory * 100 % 2 ^ 32 / t.total_memory;
  process_count = t.total_processes;
  uptime_seconds = uptime;
  context_switches = t.system_calls_count / 10;
  page_faults = t.interrupts_count / 20;
}

unfoldable pub monitor_update_stats : Monitor → Monitor
monitor_update_stats s =
    let uptime = (s.uptime_seconds + 1) % 2 ^ 32 in
    let stats = next_stats uptime s.system_stats in
    record s {
      uptime_seconds = uptime;
      system_stats = stats;
      performance_metrics = metrics_of uptime stats;
    }

unfoldable pub monitor_get_system_stats : Bool → Monitor → ℤ × Option SystemStats × Monitor
monitor_get_system_stats stats s =
    if stats
    then (let s' = monitor_update_stats s in (success, some s'.system_stats, s'))
    else (failure, none, s)

unfoldable pub monitor_get_performance_metrics :
    Bool → Monitor → ℤ × Option PerformanceMetrics × Monitor
monitor_get_performance_metrics metrics s =
    if metrics
    then (let s' = monitor_update_stats s in (success, some s'.performance_metrics, s'))
    else (failure, none, s)

-- The test of each of the three loops over the timers.
unfoldable pub is_timer : List ℕ → TimerEntry → Bool
is_timer name t = is_zero (strcmp t.name name)

unfoldable pub is_open : List ℕ → TimerEntry → Bool
is_open name t = get_or t.name 0 0 == 0 || is_timer name t

unfoldable pub find_timer : (TimerEntry → Bool) → Monitor → Option ℕ
find_timer test s = find_index test zero_timer s.timers 0 max_timers

unfoldable pub monitor_start_timer : Option (List ℕ) → Monitor → Monitor
monitor_start_timer none s = s
monitor_start_timer (some name) s = elim (find_timer (is_open name) s) [
  | none ↦ s
  | some i ↦
      let t = get_or s.timers i zero_timer in
      record s {
        timers = set s.timers i (record t {
          name = store_name 32 t.name name;
          start_time = s.timestamp_counter;
          active = true;
        });
      }
]

unfoldable pub monitor_end_timer : Option (List ℕ) → Monitor → Monitor
monitor_end_timer none s = s
monitor_end_timer (some name) s = elim (find_timer (λ t. t.active && is_timer name t) s) [
  | none ↦ s
  | some i ↦
      let t = get_or s.timers i zero_timer in
      let elapsed = (s.timestamp_counter + (2 ^ 32 - t.start_time)) % 2 ^ 32 in
      record s {
        timers =
            set s.timers i
              (record t { total_time = (t.total_time + elapsed) % 2 ^ 32; active = false });
      }
]

unfoldable pub monitor_get_timer_value : Option (List ℕ) → Monitor → ℕ
monitor_get_timer_value none s = 0
monitor_get_timer_value (some name) s = elim (find_timer (is_timer name) s) [
  | none ↦ 0
  | some i ↦ (get_or s.timers i zero_timer).total_time
]
