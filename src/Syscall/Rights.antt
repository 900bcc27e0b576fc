-- ===== src/Syscall/Rights.antt =====
-- What system calls can do to the rights of users.
use Prim.{Unit}
use mathlib.Core.Path.{subst}
use minimalist_os.Base.{
  ℕ, zero, suc, ◌≡◌, ◌≢◌, sym, ap, ◌∙◌, List, [], ◌∷◌, Option, none, some, ltb, get_or, length,
  ◌==◌, inl, inr, Bool-cases, Option-cases,
}
use minimalist_os.Security.{root_uid}
use minimalist_os.Security.Access.{
  SameRights, SameRights-refl, SameRights-same, SameRights-trans, set_context-refused,
  set_permission-refused,
}
use minimalist_os.Syscall.{
  Kernel, Poll, Stored, read_chars, sys_exit, sys_write, sys_read, sys_yield, sys_open, sys_close,
  sys_seek, sys_network_send, sys_network_receive, sys_device_open, sys_device_close,
  sys_device_read, sys_device_write, sys_device_ioctl, sys_setuid, sys_setgid, sys_getuid,
  sys_getgid, sys_chmod, sys_chown, sys_log, sys_get_stats,
}
use minimalist_os.Keyboard.{keyboard_handler}
use minimalist_os.Syscall.Stores.{KernelMemory, Misses, settle}
use minimalist_os.Syscall.Table.{
  Answer, Handler, done, value, store_at, text_pointer, syscall_table, syscall_interrupt_handler,
  sys_exit_wrapper, sys_write_wrapper, sys_read_wrapper, sys_fork_wrapper, sys_wait_wrapper,
  sys_exec_wrapper, sys_getpid_wrapper, sys_yield_wrapper, sys_open_wrapper, sys_close_wrapper,
  sys_seek_wrapper, sys_stat_wrapper, sys_network_send_wrapper, sys_network_receive_wrapper,
  sys_device_open_wrapper, sys_device_close_wrapper, sys_device_read_wrapper,
  sys_device_write_wrapper, sys_device_ioctl_wrapper, sys_setuid_wrapper, sys_setgid_wrapper,
  sys_getuid_wrapper, sys_getgid_wrapper, sys_chmod_wrapper, sys_chown_wrapper, sys_log_wrapper,
  sys_get_stats_wrapper, sys_dump_logs_wrapper, sys_power_state_wrapper,
  sys_get_battery_info_wrapper, sys_get_power_stats_wrapper,
}

-- The state in which a call leaves the kernel before its store; one that waits has not returned yet.
abbrev pub after : {D : Type 0} → Kernel D → Answer D → Kernel D
after k none = k
after k (some (result, out, k')) = k'

-- A call of a user who is not root leaves the rights alone.
Safe : {D : Type 0} → Handler D → Type 0
Safe {D = D} f =
    (a b c d : ℕ) (polls : List Poll) (k : Kernel D)
    → k.security.current_context.uid ≢ root_uid
    → SameRights k.security (after k (f a b c d polls k)).security

AllSafe : {D : Type 0} → List (Option (Handler D)) → Type 0
AllSafe [] = Unit
AllSafe (none ∷ fs) = AllSafe fs
AllSafe (some f ∷ fs) = Safe f × AllSafe fs

get_or-Safe :
    {D : Type 0} (fs : List (Option (Handler D))) (i : ℕ) (f : Handler D)
    → AllSafe fs
    → get_or fs i none ≡ some f
    → Safe f
unfolding AllSafe
get_or-Safe [] i f safe found = cc found
get_or-Safe (none ∷ fs) zero f safe found = cc found
get_or-Safe (some g ∷ fs) zero f (safe, rest) found =
    subst Safe (ap (λ o. elim o [ none ↦ g | some x ↦ x ]) found) safe
get_or-Safe (none ∷ fs) (suc i) f safe found = get_or-Safe fs i f safe found
get_or-Safe (some g ∷ fs) (suc i) f (safe, rest) found = get_or-Safe fs i f rest found

module _ (D : Type 0) (text_at : ℕ → List ℕ) (word_at : ℕ → ℕ) where
  write-Safe : Safe (sys_write_wrapper {D = D} text_at word_at)
  unfolding Safe sys_write_wrapper sys_write done
  write-Safe a b c d polls k h = elim (Bool-cases (a == 1)) [
    | inl out ↦ rw out (SameRights-refl k.security)
    | inr other ↦ rw other (SameRights-refl k.security)
  ]

  read-Safe : Safe (sys_read_wrapper {D = D} text_at word_at)
  unfolding Safe sys_read_wrapper sys_read store_at
  read-Safe a b c d polls k h = elim (Bool-cases (a == 0)) [
    | inr other ↦ rw (other, after) (SameRights-refl k.security)
    | inl keys ↦ elim (Option-cases (read_chars c polls k.keyboard)) [
      | inl waits ↦ rw (keys, after) (rw (waits, after) (SameRights-refl k.security))
      | inr (r, came) ↦ rw (keys, after) (rw (came, after) (SameRights-refl k.security))
    ]
  ]

  get_stats-Safe : Safe (sys_get_stats_wrapper {D = D} text_at word_at)
  unfolding Safe sys_get_stats_wrapper sys_get_stats store_at
  get_stats-Safe a b c d polls k h = elim (Bool-cases (a == 0)) [
    | inl system ↦ rw system (SameRights-refl k.security)
    | inr other ↦ elim (Bool-cases (a == 1)) [
      | inl performance ↦ rw (other, performance) (SameRights-refl k.security)
      | inr unknown ↦ rw (other, unknown) (SameRights-refl k.security)
    ]
  ]

  setuid-Safe : Safe (sys_setuid_wrapper {D = D} text_at word_at)
  unfolding Safe sys_setuid_wrapper sys_setuid done
  setuid-Safe a b c d polls k h =
      SameRights-same (ap (λ r. r.1) (set_context-refused k.security h a (sys_getgid k)))

  setgid-Safe : Safe (sys_setgid_wrapper {D = D} text_at word_at)
  unfolding Safe sys_setgid_wrapper sys_setgid done
  setgid-Safe a b c d polls k h =
      SameRights-same (ap (λ r. r.1) (set_context-refused k.security h (sys_getuid k) a))

  chmod-Safe : Safe (sys_chmod_wrapper {D = D} text_at word_at)
  unfolding Safe sys_chmod_wrapper sys_chmod done
  chmod-Safe a b c d polls k h = SameRights-same (
      ap (λ r. r.1)
        (set_permission-refused k.security h (text_pointer text_at a) (sys_getuid k) (sys_getgid k)
          b))

  chown-Safe : Safe (sys_chown_wrapper {D = D} text_at word_at)
  unfolding Safe sys_chown_wrapper sys_chown done
  chown-Safe a b c d polls k h =
      SameRights-same
        (ap (λ r. r.1) (set_permission-refused k.security h (text_pointer text_at a) b c 7))

  table-AllSafe : AllSafe (syscall_table {D = D} text_at word_at)
  unfolding AllSafe syscall_table Safe done value store_at sys_exit_wrapper sys_open_wrapper
      sys_close_wrapper sys_getpid_wrapper sys_yield_wrapper sys_log_wrapper sys_fork_wrapper
      sys_wait_wrapper sys_exec_wrapper sys_seek_wrapper sys_stat_wrapper sys_network_send_wrapper
      sys_network_receive_wrapper sys_device_open_wrapper sys_device_close_wrapper
      sys_device_read_wrapper sys_device_write_wrapper sys_device_ioctl_wrapper sys_getuid_wrapper
      sys_getgid_wrapper sys_dump_logs_wrapper sys_power_state_wrapper sys_get_battery_info_wrapper
      sys_get_power_stats_wrapper sys_exit sys_yield sys_open sys_close sys_seek sys_network_send
      sys_network_receive sys_device_open sys_device_close sys_device_read sys_device_write
      sys_device_ioctl sys_log
  table-AllSafe = (
    (λ a b c d polls k h. SameRights-refl k.security),
    (
      write-Safe,
      (
        read-Safe,
        (
          (λ a b c d polls k h. SameRights-refl k.security),
          (
            (λ a b c d polls k h. SameRights-refl k.security),
            (
              (λ a b c d polls k h. SameRights-refl k.security),
              (
                (λ a b c d polls k h. SameRights-refl k.security),
                (
                  (λ a b c d polls k h. SameRights-refl k.security),
                  (
                    get_stats-Safe,
                    (
                      (λ a b c d polls k h. SameRights-refl k.security),
                      (
                        (λ a b c d polls k h. SameRights-refl k.security),
                        (
                          (λ a b c d polls k h. SameRights-refl k.security),
                          (
                            (λ a b c d polls k h. SameRights-refl k.security),
                            (
                              (λ a b c d polls k h. SameRights-refl k.security),
                              (
                                (λ a b c d polls k h. SameRights-refl k.security),
                                (
                                  (λ a b c d polls k h. SameRights-refl k.security),
                                  (
                                    (λ a b c d polls k h. SameRights-refl k.security),
                                    (
                                      (λ a b c d polls k h. SameRights-refl k.security),
                                      (
                                        (λ a b c d polls k h. SameRights-refl k.security),
                                        (
                                          (λ a b c d polls k h. SameRights-refl k.security),
                                          (
                                            (λ a b c d polls k h. SameRights-refl k.security),
                                            (
                                              setuid-Safe,
                                              (
                                                setgid-Safe,
                                                (
                                                  (λ a b c d polls k h. SameRights-refl k.security),
                                                  (
                                                    (λ a b c d polls k h.
                                                        SameRights-refl k.security),
                                                    (
                                                      chmod-Safe,
                                                      (
                                                        chown-Safe,
                                                        (
                                                          (λ a b c d polls k h.
                                                            SameRights-refl k.security),
                                                          (
                                                            (λ a b c d polls k h.
                                                            SameRights-refl k.security),
                                                            (
                                                            (λ a b c d polls k h.
                                                            SameRights-refl k.security),
                                                            (
                                                            (λ a b c d polls k h.
                                                            SameRights-refl k.security),
                                                            record {},
                                                            ),
                                                            ),
                                                          ),
                                                        ),
                                                      ),
                                                    ),
                                                  ),
                                                ),
                                              ),
                                            ),
                                          ),
                                        ),
                                      ),
                                    ),
                                  ),
                                ),
                              ),
                            ),
                          ),
                        ),
                      ),
                    ),
                  ),
                ),
              ),
            ),
          ),
        ),
      ),
    ),
  )

  syscall-Safe : (eax : ℕ) → Safe (syscall_interrupt_handler {D = D} text_at word_at eax)
  unfolding Safe syscall_interrupt_handler value
  syscall-Safe eax a b c d polls k h =
      elim (Bool-cases (ltb eax (length (syscall_table {D = D} text_at word_at)))) [
        | inr outside ↦ rw outside (SameRights-refl k.security)
        | inl inside ↦
            elim (Option-cases (get_or (syscall_table {D = D} text_at word_at) eax none)) [
              | inl empty ↦ rw inside (rw empty (SameRights-refl k.security))
              | inr (f, found) ↦ rw inside (
                  rw found (
                    get_or-Safe (syscall_table text_at word_at) eax f table-AllSafe found a b c d
                      polls k h))
            ]
      ]

-- What reaches the kernel: a system call with the user's memory and the registers, or a scancode.
pub data Event : Type 0 where
  system_call : (ℕ → List ℕ) → (ℕ → ℕ) → ℕ → ℕ → ℕ → ℕ → ℕ → List Poll → Event
  scancode : ℕ → Event

module _ {D : Type 0} (place : KernelMemory D) where
  pub kernel_after : List Event → Kernel D → Kernel D
  kernel_after [] k = k
  kernel_after (system_call text_at word_at eax ebx ecx edx esi polls ∷ events) k =
      kernel_after events
        (settle place k (syscall_interrupt_handler text_at word_at eax ebx ecx edx esi polls k))
  kernel_after (scancode code ∷ events) k =
      kernel_after events (record k { keyboard = keyboard_handler code k.keyboard })

  -- Every call returns, and what it stores misses the memory of the kernel.
  pub data AllOutside : List Event → Kernel D → Type 0 where
    no_event : {k : Kernel D} → AllOutside [] k
    key :
        {code : ℕ} {events : List Event} {k : Kernel D}
        → AllOutside events (record k { keyboard = keyboard_handler code k.keyboard })
        → AllOutside (scancode code ∷ events) k
    returned :
        {text_at : ℕ → List ℕ} {word_at : ℕ → ℕ} {eax ebx ecx edx esi : ℕ} {polls : List Poll}
        {events : List Event} {k : Kernel D} (result a : ℕ) (v : Stored) (k' : Kernel D)
        → syscall_interrupt_handler text_at word_at eax ebx ecx edx esi polls k
          ≡ some (result, (a, v), k')
        → Misses place.start place.size a v
        → AllOutside events k'
        → AllOutside (system_call text_at word_at eax ebx ecx edx esi polls ∷ events) k

  -- While the user is not root, no sequence of system calls and of keys changes the security context,
  -- the access control list or the number of users, whatever the numbers, the registers and the user's
  -- memory, where every call returns and what it stores through a pointer misses the memory of the
  -- kernel, which the source does not test.
  pub kernel_after-SameRights :
      (events : List Event) (k : Kernel D)
      → k.security.current_context.uid ≢ root_uid
      → AllOutside events k
      → SameRights k.security (kernel_after events k).security
  unfolding kernel_after Safe settle
  kernel_after-SameRights [] k h all = SameRights-refl k.security
  kernel_after-SameRights (scancode code ∷ events) k h (key all) =
      kernel_after-SameRights events (record k { keyboard = keyboard_handler code k.keyboard }) h
        all
  kernel_after-SameRights (system_call text_at word_at eax ebx ecx edx esi polls ∷ events) k h
        (returned result a v k' answer missed all) =
      let handled = syscall_interrupt_handler text_at word_at eax ebx ecx edx esi polls k in
      let now : SameRights k.security k'.security =
        subst (λ r. SameRights k.security (after k r).security) answer
          (syscall-Safe D text_at word_at eax ebx ecx edx esi polls k h) in
      let settled : settle place k handled ≡ k' =
        ap (settle place k) answer ∙ place.outside a v k' missed in
      let still : k'.security.current_context.uid ≢ root_uid =
        λ e. h (ap (λ c. c.uid) (sym now.context) ∙ e) in
      subst (λ t. SameRights k.security (kernel_after events t).security) (sym settled)
        (SameRights-trans now (kernel_after-SameRights events k' still all))
