-- ===== src/Syscall/Tests.antt =====
-- A kernel whose user is not root, and two characters that wait on the keyboard.
use minimalist_os.Base.{
  ℕ, ◌+◌, ◌≡◌, refl, Bool, ltb, ◌&&◌, if◌then◌else◌, inl, inr, List, [], ◌∷◌, ◌++◌, none, some,
  false, replicate, take, drop, arith,
}
use minimalist_os.Network.{network_init}
use minimalist_os.Security.{cleared, security_set_context, security_set_permission}
use minimalist_os.Security.Access.{SameRights}
use minimalist_os.Keyboard.{Keyboard}
use minimalist_os.Keyboard.Queue.{IsValid, contents}
use minimalist_os.Syscall.{
  Kernel, Stored, bytes, sys_read, sys_error, nothing, sys_setuid, sys_chown, sys_get_stats,
}
use minimalist_os.Syscall.Table.{
  syscall_interrupt_handler, syscall_table, value, done, store_at, sys_setuid_wrapper,
  sys_chown_wrapper, sys_get_stats_wrapper,
}
use minimalist_os.Monitor.{monitor_get_system_stats}
use minimalist_os.Syscall.Stores.{size_of, KernelMemory}
use minimalist_os.Syscall.Rights.{
  Event, system_call, scancode, AllOutside, no_event, key, returned, kernel_after,
  kernel_after-SameRights,
}
use minimalist_os.Syscall.Read.{quiet, sys_read_lem}

abbrev typed_ab : Keyboard
typed_ab = record {
  keys = record {
    shift_pressed = false;
    ctrl_pressed = false;
    alt_pressed = false;
    caps_lock = false;
    num_lock = false;
    scroll_lock = false;
  };
  kb_buffer = b'b' ∷ (replicate 254 0 ++ (b'a' ∷ []));
  kb_write_ptr = 1;
  kb_read_ptr = 255;
}

abbrev guest : Kernel ℕ
guest = record {
  scheduler = record {
    processes = [];
    next_pid = 0;
    current_process = 0;
    scheduler_ticks = 0;
    current_process_ptr = none;
  };
  pending_switch = none;
  files = record { file_descriptors = [] };
  network = network_init;
  devices = record {
    nodes = λ a. record {
      info = record { name = []; type = 0; major = 0; minor = 0; ops = none };
      next = 0;
    };
    device_list = 0;
  };
  drivers = 0;
  security = record cleared {
    current_context = record { uid = 1000; gid = 1000; euid = 1000; egid = 1000; permissions = 5 };
  };
  monitor = record {
    log_buffer = [];
    log_index = 0;
    log_count = 0;
    system_stats = record {
      total_processes = 0;
      running_processes = 0;
      sleeping_processes = 0;
      total_memory = 0;
      used_memory = 0;
      free_memory = 0;
      total_cpu_time = 0;
      idle_cpu_time = 0;
      system_calls_count = 0;
      interrupts_count = 0;
    };
    performance_metrics = record {
      cpu_usage_percent = 0;
      memory_usage_percent = 0;
      process_count = 0;
      uptime_seconds = 0;
      context_switches = 0;
      page_faults = 0;
    };
    timers = [];
    uptime_seconds = 0;
    timestamp_counter = 0;
  };
  keyboard = typed_ab;
  screen = record {
    vga = [];
    cursor_x = 0;
    cursor_y = 0;
    current_color = 7;
    cursor_start = 0;
    cursor_end = 15;
    hardware_pos = 0;
  };
  serial = [];
}

-- The memory of a user: the same text everywhere.
abbrev text_at : ℕ → List ℕ
text_at a = b'x' ∷ 0 ∷ []

-- The kernel lies in the two megabytes from the first one on, and a store there clears its rights.
hits : ℕ → Stored → Bool
hits a v = ltb 0x100000 (a + size_of v) && ltb a 0x300000

place : KernelMemory ℕ
unfolding hits
place = record {
  start = 0x100000;
  size = 0x200000;
  store = λ a v k. if hits a v then record k { security = cleared } else k;
  outside = λ a v k missed. let away : hits a v ≡ false = ground (arith, missed) in rw away refl;
}

-- `setuid(0)`, a key, `chown`, the statistics to an address of the user, and a number without an entry.
abbrev attack : List Event
attack =
    system_call text_at (λ a. 0) 26 0 0 0 0 []
    ∷ scancode 0x10
    ∷ system_call text_at (λ a. 0) 31 5 1000 1000 0 []
    ∷ system_call text_at (λ a. 0) 13 0 0x400000 0 0 []
    ∷ system_call text_at (λ a. 0) 9 1 2 3 4 []
    ∷ []

attack-AllOutside : AllOutside place attack guest
unfolding place syscall_interrupt_handler syscall_table value done store_at sys_setuid_wrapper
    sys_setuid sys_chown_wrapper sys_chown sys_get_stats_wrapper sys_get_stats security_set_context
    security_set_permission monitor_get_system_stats size_of
attack-AllOutside = returned _ _ _ _ refl (inl (omega arith)) (
    key (
      returned _ _ _ _ refl (inl (omega arith)) (
        returned _ _ _ _ refl (inr (omega arith))
          (returned _ _ _ _ refl (inl (omega arith)) no_event))))

kernel_after-SameRights_example :
    SameRights guest.security (kernel_after place attack guest).security
kernel_after-SameRights_example =
    kernel_after-SameRights place attack guest (λ e. absurd (omega arith)) attack-AllOutside

-- The call of a number without an entry.
no_entry :
    syscall_interrupt_handler text_at (λ a. 0) 9 1 2 3 4 [] guest
    ≡ some (sys_error, (0, nothing), guest)
unfolding syscall_interrupt_handler syscall_table value
no_entry = refl

typed_ab-IsValid : IsValid typed_ab
typed_ab-IsValid = record { full = refl; write_in = omega arith; read_in = omega arith }

sys_read_lem_example :
    (keys : Keyboard) × (sys_read 0 2 (quiet (none ∷ some 7 ∷ [])) guest
      ≡ some (2, bytes (take 2 (contents typed_ab)), record guest { keyboard = keys }))
    × (contents keys ≡ drop 2 (contents typed_ab))
    × IsValid keys
sys_read_lem_example =
    sys_read_lem 2 (none ∷ some 7 ∷ []) guest typed_ab-IsValid
      (omega arith, (omega arith, record {})) (omega arith) (omega arith)
