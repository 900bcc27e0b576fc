-- ===== src/Syscall/Table.antt =====
-- The table of the system calls, and the handler of the interrupt. The wrappers read the arguments
-- out of the four registers: `text_at` and `word_at` give the memory from an address on.
use minimalist_os.Base.{
  ℕ, ◌%◌, ◌^◌, List, [], ◌∷◌, not, Option, none, some, ltb, get_or, length, ◌==◌, if◌then◌else◌,
}
use minimalist_os.Vfs.{to_int}
use minimalist_os.Syscall.{
  Kernel, Stored, nothing, Poll, sys_error, sys_exit, sys_write, sys_read, sys_fork, sys_wait,
  sys_exec, sys_getpid, sys_yield, sys_open, sys_close, sys_seek, sys_stat, sys_network_send,
  sys_network_receive, sys_device_open, sys_device_close, sys_device_read, sys_device_write,
  sys_device_ioctl, sys_setuid, sys_setgid, sys_getuid, sys_getgid, sys_chmod, sys_chown, sys_log,
  sys_get_stats, sys_dump_logs, sys_power_state, sys_get_battery_info, sys_get_power_stats,
}

-- The result of a call, the address that it stores at and what it stores there, and the state before
-- this store; none while it still waits.
abbrev pub Answer : Type 0 → Type 0
Answer D = Option (ℕ × (ℕ × Stored) × Kernel D)

-- A function of the table: four arguments, the polls of a call that waits, and the state.
abbrev pub Handler : Type 0 → Type 0
Handler D = ℕ → ℕ → ℕ → ℕ → List Poll → Kernel D → Answer D

-- A call that stores nothing, and one that changes nothing either.
unfoldable pub done : {D : Type 0} → ℕ × Kernel D → Answer D
done (result, k) = some (result, (0, nothing), k)

unfoldable pub value : {D : Type 0} → ℕ → Kernel D → Answer D
value result k = some (result, (0, nothing), k)

-- A call that stores through its argument `a`, which is not tested but, by some, for null.
unfoldable pub store_at : {D : Type 0} → ℕ → ℕ × Stored × Kernel D → Answer D
store_at a (result, out, k) = some (result, (a, out), k)

-- A pointer that is tested for null.
unfoldable pub text_pointer : (ℕ → List ℕ) → ℕ → Option (List ℕ)
text_pointer text_at a = if a == 0 then none else some (text_at a)

unfoldable pub word_pointer : (ℕ → ℕ) → ℕ → Option ℕ
word_pointer word_at a = if a == 0 then none else some (word_at a)

module _ {D : Type 0} (text_at : ℕ → List ℕ) (word_at : ℕ → ℕ) where
  unfoldable pub sys_exit_wrapper : Handler D
  sys_exit_wrapper a b c d polls k = done (sys_exit a k)

  unfoldable pub sys_write_wrapper : Handler D
  sys_write_wrapper a b c d polls k = done (sys_write a (text_at b) c k)

  unfoldable pub sys_read_wrapper : Handler D
  sys_read_wrapper a b c d polls k = elim (sys_read a c polls k) [
    | none ↦ none
    | some r ↦ store_at b r
  ]

  unfoldable pub sys_fork_wrapper : Handler D
  sys_fork_wrapper a b c d polls k = value (sys_fork k) k

  unfoldable pub sys_wait_wrapper : Handler D
  sys_wait_wrapper a b c d polls k = value (sys_wait a) k

  unfoldable pub sys_exec_wrapper : Handler D
  sys_exec_wrapper a b c d polls k = value (sys_exec (text_at a)) k

  unfoldable pub sys_getpid_wrapper : Handler D
  sys_getpid_wrapper a b c d polls k = value (sys_getpid k) k

  unfoldable pub sys_yield_wrapper : Handler D
  sys_yield_wrapper a b c d polls k = done (sys_yield k)

  unfoldable pub sys_open_wrapper : Handler D
  sys_open_wrapper a b c d polls k = done (sys_open (text_at a) b k)

  unfoldable pub sys_close_wrapper : Handler D
  sys_close_wrapper a b c d polls k = done (sys_close a k)

  unfoldable pub sys_seek_wrapper : Handler D
  sys_seek_wrapper a b c d polls k = done (sys_seek (to_int a) b k)

  unfoldable pub sys_stat_wrapper : Handler D
  sys_stat_wrapper a b c d polls k = value (sys_stat (text_at a)) k

  unfoldable pub sys_network_send_wrapper : Handler D
  sys_network_send_wrapper a b c d polls k =
      done (sys_network_send a (b % 2 ^ 8) (text_pointer text_at c) (d % 2 ^ 16) k)

  unfoldable pub sys_network_receive_wrapper : Handler D
  sys_network_receive_wrapper a b c d polls k = store_at a (sys_network_receive (not (a == 0)) k)

  unfoldable pub sys_device_open_wrapper : Handler D
  sys_device_open_wrapper a b c d polls k = done (sys_device_open (text_at a) k)

  unfoldable pub sys_device_close_wrapper : Handler D
  sys_device_close_wrapper a b c d polls k = done (sys_device_close (text_at a) k)

  unfoldable pub sys_device_read_wrapper : Handler D
  sys_device_read_wrapper a b c d polls k =
      store_at b (sys_device_read (text_at a) (text_pointer text_at b) c k)

  unfoldable pub sys_device_write_wrapper : Handler D
  sys_device_write_wrapper a b c d polls k =
      done (sys_device_write (text_at a) (text_pointer text_at b) c k)

  unfoldable pub sys_device_ioctl_wrapper : Handler D
  sys_device_ioctl_wrapper a b c d polls k =
      store_at c (sys_device_ioctl (text_at a) b (word_pointer word_at c) k)

  unfoldable pub sys_setuid_wrapper : Handler D
  sys_setuid_wrapper a b c d polls k = done (sys_setuid a k)

  unfoldable pub sys_setgid_wrapper : Handler D
  sys_setgid_wrapper a b c d polls k = done (sys_setgid a k)

  unfoldable pub sys_getuid_wrapper : Handler D
  sys_getuid_wrapper a b c d polls k = value (sys_getuid k) k

  unfoldable pub sys_getgid_wrapper : Handler D
  sys_getgid_wrapper a b c d polls k = value (sys_getgid k) k

  unfoldable pub sys_chmod_wrapper : Handler D
  sys_chmod_wrapper a b c d polls k = done (sys_chmod (text_pointer text_at a) b k)

  unfoldable pub sys_chown_wrapper : Handler D
  sys_chown_wrapper a b c d polls k = done (sys_chown (text_pointer text_at a) b c k)

  unfoldable pub sys_log_wrapper : Handler D
  sys_log_wrapper a b c d polls k = done (sys_log (a % 2 ^ 8) (text_pointer text_at b) k)

  unfoldable pub sys_get_stats_wrapper : Handler D
  sys_get_stats_wrapper a b c d polls k = store_at b (sys_get_stats a (not (b == 0)) k)

  unfoldable pub sys_dump_logs_wrapper : Handler D
  sys_dump_logs_wrapper a b c d polls k = value (sys_dump_logs k) k

  unfoldable pub sys_power_state_wrapper : Handler D
  sys_power_state_wrapper a b c d polls k = value (sys_power_state a) k

  unfoldable pub sys_get_battery_info_wrapper : Handler D
  sys_get_battery_info_wrapper a b c d polls k = value (sys_get_battery_info (not (a == 0))) k

  unfoldable pub sys_get_power_stats_wrapper : Handler D
  sys_get_power_stats_wrapper a b c d polls k = value (sys_get_power_stats (not (a == 0))) k

  -- The entries that the initialiser leaves out are null.
  unfoldable pub syscall_table : List (Option (Handler D))
  syscall_table =
      none
      ∷ some sys_exit_wrapper
      ∷ some sys_write_wrapper
      ∷ some sys_read_wrapper
      ∷ some sys_open_wrapper
      ∷ some sys_close_wrapper
      ∷ some sys_getpid_wrapper
      ∷ some sys_yield_wrapper
      ∷ none
      ∷ none
      ∷ none
      ∷ none
      ∷ some sys_log_wrapper
      ∷ some sys_get_stats_wrapper
      ∷ some sys_fork_wrapper
      ∷ some sys_wait_wrapper
      ∷ some sys_exec_wrapper
      ∷ some sys_seek_wrapper
      ∷ some sys_stat_wrapper
      ∷ some sys_network_send_wrapper
      ∷ some sys_network_receive_wrapper
      ∷ some sys_device_open_wrapper
      ∷ some sys_device_close_wrapper
      ∷ some sys_device_read_wrapper
      ∷ some sys_device_write_wrapper
      ∷ some sys_device_ioctl_wrapper
      ∷ some sys_setuid_wrapper
      ∷ some sys_setgid_wrapper
      ∷ some sys_getuid_wrapper
      ∷ some sys_getgid_wrapper
      ∷ some sys_chmod_wrapper
      ∷ some sys_chown_wrapper
      ∷ some sys_dump_logs_wrapper
      ∷ some sys_power_state_wrapper
      ∷ some sys_get_battery_info_wrapper
      ∷ some sys_get_power_stats_wrapper
      ∷ []

  -- A number without an entry is an error, and changes nothing.
  unfoldable pub syscall_interrupt_handler : ℕ → Handler D
  syscall_interrupt_handler eax ebx ecx edx esi polls k =
      if ltb eax (length syscall_table)
      then (elim (get_or syscall_table eax none) [
        | some f ↦ f ebx ecx edx esi polls k
        | none ↦ value sys_error k
      ])
      else value sys_error k
