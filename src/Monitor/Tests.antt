-- ===== src/Monitor/Tests.antt =====
-- The log after a first message.
use minimalist_os.Base.{
  ℕ, ◌+◌, ◌-◌, ◌≤◌, ◌<◌, ◌≡◌, length, get_or, [], ◌∷◌, true, some, success, arith, replicate,
  length-replicate,
}
use minimalist_os.Monitor.{Monitor, LogEntry, zero_entry, monitor_log, monitor_get_log_entry}
use minimalist_os.Monitor.Log.{IsValid, Records, monitor_get_log_entry-monitor_log}

-- An empty log, near the end of the ring.
abbrev empty : Monitor
empty = record {
  log_buffer = replicate 256 zero_entry;
  log_index = 255;
  log_count = 0;
  system_stats = record {
    total_processes = 0;
    running_processes = 0;
    sleeping_processes = 0;
    total_memory = 0;
    used_memory = 0;
    free_memory = 0;
    total_cpu_time = 0;
    idle_cpu_time = 0;
    system_calls_count = 0;
    interrupts_count = 0;
  };
  performance_metrics = record {
    cpu_usage_percent = 0;
    memory_usage_percent = 0;
    process_count = 0;
    uptime_seconds = 0;
    context_switches = 0;
    page_faults = 0;
  };
  timers = [];
  uptime_seconds = 0;
  timestamp_counter = 7;
}

empty-IsValid : IsValid empty
empty-IsValid = record {
  room = length-replicate 256 zero_entry;
  index = omega arith;
  count = omega arith;
}

room : 256 ≤ length (get_or empty.log_buffer 255 zero_entry).message
unfolding zero_entry
room = omega arith

monitor_get_log_entry-monitor_log_example :
    let s' = monitor_log 1 2 (some (b'a' ∷ 0 ∷ [])) empty in
    ((e : LogEntry) × (monitor_get_log_entry (s'.log_count - 1) true s' ≡ (success, some e))
      × Records empty 1 2 (b'a' ∷ 0 ∷ []) e)
    × ((k : ℕ)
        → empty.log_count < 256
        → k < empty.log_count
        → monitor_get_log_entry k true s' ≡ monitor_get_log_entry k true empty)
    × ((k : ℕ)
        → empty.log_count ≡ 256
        → k + 1 < empty.log_count
        → monitor_get_log_entry k true s' ≡ monitor_get_log_entry (k + 1) true empty)
    × IsValid s'
monitor_get_log_entry-monitor_log_example =
    monitor_get_log_entry-monitor_log empty 1 2 (b'a' ∷ 0 ∷ []) empty-IsValid room
