-- ===== src/Syscall.antt =====
-- kernel/syscall.c, include/syscall.h: the system calls, over the parts of the kernel that they reach.
-- The messages of the log and of `monitor_dump_logs` are not modelled.
pub mod Table
pub mod Stores
pub mod Rights
pub mod Read
mod Tests
use minimalist_os.Base.{
  ℕ, zero, suc, ◌-◌, ◌%◌, ◌^◌, List, [], ◌∷◌, ◌++◌, Bool, true, false, not, Option, none, some, ℤ,
  pos, negsuc, is_zero, take, ◌==◌, if◌then◌else◌,
}
use minimalist_os.Network.{Network, NetworkPacket, network_send_packet, network_receive_packet}
use minimalist_os.Process.{Scheduler, Process, process, process_exit, schedule}
use minimalist_os.Vfs.{Vfs, to_int, fs_open, fs_close, fs_seek}
use minimalist_os.Loader.{as_u32}
use minimalist_os.Devices.{
  Devices, device_open, device_close, device_read, device_write, device_ioctl,
}
use minimalist_os.Security.{
  Security, SecurityContext, security_get_context, security_set_context, security_set_permission,
}
use minimalist_os.Monitor.{
  Monitor, SystemStats, PerformanceMetrics, monitor_log, monitor_get_system_stats,
  monitor_get_performance_metrics,
}
use minimalist_os.Keyboard.{Keyboard, keyboard_handler, keyboard_getchar}
use minimalist_os.Vga.{Vga, vga_print}

abbrev pub sys_success : ℕ
sys_success = 0

-- -1, as the 32 bits of the result.
abbrev pub sys_error : ℕ
sys_error = 2 ^ 32 - 1

-- The static variables of the parts. `D` is the state of the device drivers, `serial` what was sent
-- to the serial line, and `pending_switch` the pair of contexts that the assembly switches.
pub record Kernel (D : Type 0) : Type 0 where
  pub scheduler : Scheduler
  pub pending_switch : Option (ℕ × ℕ)
  pub files : Vfs
  pub network : Network
  pub devices : Devices D
  pub drivers : D
  pub security : Security
  pub monitor : Monitor
  pub keyboard : Keyboard
  pub screen : Vga
  pub serial : List ℕ

-- What a call stores through its pointer.
pub data Stored : Type 0 where
  nothing : Stored
  bytes : List ℕ → Stored
  word : ℕ → Stored
  packet : NetworkPacket → Stored
  stats : SystemStats → Stored
  metrics : PerformanceMetrics → Stored

unfoldable pub stored_as : {A : Type 0} → (A → Stored) → Option A → Stored
stored_as f none = nothing
stored_as f (some a) = f a

-- A waiting call polls: before a look at the keyboard some scancodes have come in, and the serial
-- line has a byte or not.
abbrev pub Poll : Type 0
Poll = List ℕ × Option ℕ

unfoldable pub press_all : List ℕ → Keyboard → Keyboard
press_all [] k = k
press_all (code ∷ codes) k = press_all codes (keyboard_handler code k)

-- The loop that waits for a character: none when nothing has come by the last poll.
unfoldable pub wait_char : List Poll → Keyboard → Option (ℕ × List Poll × Keyboard)
wait_char [] k = none
wait_char ((codes, line) ∷ polls) k =
    let (c, k') = keyboard_getchar (press_all codes k) in
    let rest = wait_char polls k' in
    if c == 0 then elim line [ some b ↦ some (b, polls, k') | none ↦ rest ] else some (c, polls, k')

unfoldable pub read_chars : ℕ → List Poll → Keyboard → Option (List ℕ × Keyboard)
read_chars zero polls k = some ([], k)
read_chars (suc n) polls k = elim (wait_char polls k) [
  | none ↦ none
  | some (c, polls', k') ↦ elim (read_chars n polls' k') [
    | none ↦ none
    | some (cs, k'') ↦ some (c ∷ cs, k'')
  ]
]

unfoldable pub sys_wait : ℕ → ℕ
sys_wait pid = sys_success

unfoldable pub sys_exec : List ℕ → ℕ
sys_exec path = sys_error

-- A descriptor or a position, and -1 for a negative one.
unfoldable pub not_negative : ℤ → ℕ
not_negative (pos n) = n
not_negative (negsuc n) = sys_error

unfoldable pub sys_stat : List ℕ → ℕ
sys_stat filename = 0

unfoldable pub sys_power_state : ℕ → ℕ
sys_power_state state = sys_success

unfoldable pub sys_get_battery_info : Bool → ℕ
sys_get_battery_info buffer = sys_error

unfoldable pub sys_get_power_stats : Bool → ℕ
sys_get_power_stats buffer = sys_error

module _ {D : Type 0} where
  unfoldable pub sys_exit : ℕ → Kernel D → ℕ × Kernel D
  sys_exit status k =
      let (s, switch) = process_exit status k.scheduler in
      (sys_success, record k { scheduler = s; pending_switch = switch })

  -- The string is printed up to its terminator, whatever the count.
  unfoldable pub sys_write : ℕ → List ℕ → ℕ → Kernel D → ℕ × Kernel D
  sys_write fd buf count k =
      if fd == 1
      then (
        count,
        record k { screen = vga_print buf k.screen; serial = k.serial ++ take count buf },
      )
      else (sys_error, k)

  unfoldable pub sys_read : ℕ → ℕ → List Poll → Kernel D → Option (ℕ × Stored × Kernel D)
  sys_read fd count polls k =
      if fd == 0
      then (elim (read_chars count polls k.keyboard) [
        | none ↦ none
        | some (buf, keys) ↦ some (count, bytes buf, record k { keyboard = keys })
      ])
      else some (sys_error, nothing, k)

  unfoldable pub sys_getpid : Kernel D → ℕ
  sys_getpid k = elim k.scheduler.current_process_ptr [
    | none ↦ 0
    | some i ↦ (process k.scheduler i).pid
  ]

  unfoldable pub sys_fork : Kernel D → ℕ
  sys_fork k = sys_getpid k

  unfoldable pub sys_yield : Kernel D → ℕ × Kernel D
  sys_yield k =
      let (s, switch) = schedule k.scheduler in
      (sys_success, record k { scheduler = s; pending_switch = switch })

  unfoldable pub sys_open : List ℕ → ℕ → Kernel D → ℕ × Kernel D
  sys_open filename mode k =
      let (fd, files) = fs_open filename mode k.files in
      (not_negative fd, record k { files = files })

  unfoldable pub sys_close : ℕ → Kernel D → ℕ × Kernel D
  sys_close fd k =
      let (result, files) = fs_close (to_int fd) k.files in
      (if is_zero result then sys_success else sys_error, record k { files = files })

  unfoldable pub sys_seek : ℤ → ℕ → Kernel D → ℕ × Kernel D
  sys_seek fd position k =
      let (result, files) = fs_seek fd position k.files in
      (not_negative result, record k { files = files })

  unfoldable pub sys_network_send : ℕ → ℕ → Option (List ℕ) → ℕ → Kernel D → ℕ × Kernel D
  sys_network_send dst_ip type payload length k =
      let (result, network) = network_send_packet dst_ip type payload length k.network in
      (as_u32 result, record k { network = network })

  unfoldable pub sys_network_receive : Bool → Kernel D → ℕ × Stored × Kernel D
  sys_network_receive buffer k =
      let (result, p, network) = network_receive_packet buffer k.network in
      (as_u32 result, stored_as packet p, record k { network = network })

  unfoldable pub sys_device_open : List ℕ → Kernel D → ℕ × Kernel D
  sys_device_open name k =
      let (result, drivers) = device_open name k.devices k.drivers in
      (as_u32 result, record k { drivers = drivers })

  unfoldable pub sys_device_close : List ℕ → Kernel D → ℕ × Kernel D
  sys_device_close name k =
      let (result, drivers) = device_close name k.devices k.drivers in
      (as_u32 result, record k { drivers = drivers })

  unfoldable pub sys_device_read : List ℕ → Option (List ℕ) → ℕ → Kernel D → ℕ × Stored × Kernel D
  sys_device_read name buffer size k =
      let (result, buf, drivers) = device_read name buffer size k.devices k.drivers in
      (as_u32 result, stored_as bytes buf, record k { drivers = drivers })

  unfoldable pub sys_device_write : List ℕ → Option (List ℕ) → ℕ → Kernel D → ℕ × Kernel D
  sys_device_write name buffer size k =
      let (result, drivers) = device_write name buffer size k.devices k.drivers in
      (as_u32 result, record k { drivers = drivers })

  unfoldable pub sys_device_ioctl : List ℕ → ℕ → Option ℕ → Kernel D → ℕ × Stored × Kernel D
  sys_device_ioctl name cmd arg k =
      let (result, out, drivers) = device_ioctl name cmd arg k.devices k.drivers in
      (as_u32 result, stored_as word out, record k { drivers = drivers })

  -- The ids of the context, which `security_get_context` always stores.
  unfoldable pub sys_getuid : Kernel D → ℕ
  sys_getuid k = elim (security_get_context true k.security).1 [
    | none ↦ sys_error
    | some ctx ↦ ctx.uid
  ]

  unfoldable pub sys_getgid : Kernel D → ℕ
  sys_getgid k = elim (security_get_context true k.security).1 [
    | none ↦ sys_error
    | some ctx ↦ ctx.gid
  ]

  unfoldable pub sys_setuid : ℕ → Kernel D → ℕ × Kernel D
  sys_setuid uid k =
      let (result, security) = security_set_context uid (sys_getgid k) k.security in
      (as_u32 result, record k { security = security })

  unfoldable pub sys_setgid : ℕ → Kernel D → ℕ × Kernel D
  sys_setgid gid k =
      let (result, security) = security_set_context (sys_getuid k) gid k.security in
      (as_u32 result, record k { security = security })

  unfoldable pub sys_chmod : Option (List ℕ) → ℕ → Kernel D → ℕ × Kernel D
  sys_chmod path mode k =
      let (result, security) =
        security_set_permission path (sys_getuid k) (sys_getgid k) mode k.security in
      (as_u32 result, record k { security = security })

  -- With the rights to read, write and execute.
  unfoldable pub sys_chown : Option (List ℕ) → ℕ → ℕ → Kernel D → ℕ × Kernel D
  sys_chown path uid gid k =
      let (result, security) = security_set_permission path uid gid 7 k.security in
      (as_u32 result, record k { security = security })

  -- The source 1 is a process.
  unfoldable pub sys_log : ℕ → Option (List ℕ) → Kernel D → ℕ × Kernel D
  sys_log level message k =
      (sys_success, record k { monitor = monitor_log level 1 message k.monitor })

  unfoldable pub sys_get_stats : ℕ → Bool → Kernel D → ℕ × Stored × Kernel D
  sys_get_stats type buffer k =
      let (result, s, m) = monitor_get_system_stats buffer k.monitor in
      let (result', p, m') = monitor_get_performance_metrics buffer k.monitor in
      if type == 0
      then (as_u32 result, stored_as stats s, record k { monitor = m })
      else if type == 1
      then (as_u32 result', stored_as metrics p, record k { monitor = m' })
      else (sys_error, nothing, k)

  unfoldable pub sys_dump_logs : Kernel D → ℕ
  sys_dump_logs k = sys_success
