-- ===== src/Devices/Calls.antt =====
-- The calls by name, and the driver that they reach.
use minimalist_os.Base.{
  ℕ, ◌≤◌, ◌<◌, ◌≡◌, refl, ap, ◌∙◌, List, ◌∷◌, true, Option, none, some, arith, length, take_self,
  inl, inr, success, failure, pos,
}
use minimalist_os.CString.{strcmp, text, store_name}
use minimalist_os.CString.Compare.{strcmp-zero_iff}
use minimalist_os.CString.Copy.{text-store_name}
use minimalist_os.Memory.{Memory, alloc_page}
use minimalist_os.Devices.{
  DeviceInfo, DeviceOps, Devices, has_name, device_find, device_register, new_info, ops_of, call,
  device_open, device_close, device_read, device_write, device_ioctl,
}
use minimalist_os.Devices.Chain.{Entry}
use minimalist_os.Devices.Refine.{Lists, device_register-Pushed, device_find_lem}

module _ {D : Type 0} where
  new_info-has_name :
      (old name : List ℕ) (type major minor : ℕ) (ops : Option (DeviceOps D))
      → 32 ≤ length old
      → length (text name) < 32
      → has_name name (new_info old name type major minor ops) ≡ true
  unfolding has_name new_info
  new_info-has_name old name type major minor ops room short =
      let stored : text (store_name 32 old name) ≡ text name =
        text-store_name 32 old name (omega arith) room ∙ take_self 31 (text name) (omega arith) in
      let equal : strcmp (store_name 32 old name) name ≡ pos 0 =
        (strcmp-zero_iff (store_name 32 old name) name).1 stored in
      rw equal refl

  ops_of-first :
      (name : List ℕ) (s : Devices D) (m : Memory) (a : ℕ) (d : DeviceInfo D) (ds : List (Entry D))
      → Lists s m ((a, d) ∷ ds)
      → has_name name d ≡ true
      → ops_of s (device_find name s) ≡ d.ops
  unfolding ops_of
  ops_of-first name s m a d ds l hit =
      let found = (device_find_lem name 0 0 s m ((a, d) ∷ ds) l).0 in
      let (_, _, info, _) = l.chain in
      let at : device_find name s ≡ some a = found ∙ rw hit refl in rw at (ap (λ i. i.ops) info)

  -- What the calls do on a device with these operations.
  pub record Reaches (name : List ℕ) (s : Devices D) (ops : DeviceOps D) : Type 0 where
    open_reaches : (d : D) → device_open name s d ≡ call ops.open_op d
    close_reaches : (d : D) → device_close name s d ≡ call ops.close_op d
    read_reaches :
        (buffer : Option (List ℕ)) (size : ℕ) (d : D)
        → device_read name buffer size s d
          ≡ elim ops.read_op [ none ↦ (failure, buffer, d) | some f ↦ f buffer size d ]
    write_reaches :
        (buffer : Option (List ℕ)) (size : ℕ) (d : D)
        → device_write name buffer size s d
          ≡ elim ops.write_op [ none ↦ (failure, d) | some f ↦ f buffer size d ]
    ioctl_reaches :
        (cmd : ℕ) (arg : Option ℕ) (d : D)
        → device_ioctl name cmd arg s d
          ≡ elim ops.ioctl_op [ none ↦ (failure, arg, d) | some f ↦ f cmd arg d ]

  Reaches-ops :
      (name : List ℕ) (s : Devices D) (ops : DeviceOps D)
      → ops_of s (device_find name s) ≡ some ops
      → Reaches name s ops
  unfolding device_open device_close device_read device_write device_ioctl
  Reaches-ops name s ops found = record {
    open_reaches = λ d. rw (found, device_open) refl;
    close_reaches = λ d. rw (found, device_close) refl;
    read_reaches = λ buffer size d. rw (found, device_read) refl;
    write_reaches = λ buffer size d. rw (found, device_write) refl;
    ioctl_reaches = λ cmd arg d. rw (found, device_ioctl) refl;
  }

  -- Once a driver has been registered under a name of fewer than 32 characters, opening, closing,
  -- reading, writing and the control call under that name are the driver's own operations, and fail
  -- for those that it lacks; also where an older device has the same name. The name's field of the
  -- new page has 32 bytes, and a page is free.
  pub device_register-Reaches :
      (name : List ℕ) (type major minor : ℕ) (ops : DeviceOps D) (s : Devices D) (m : Memory)
      (ds : List (Entry D))
      → Lists s m ds
      → length (text name) < 32
      → 32 ≤ length (s.nodes (alloc_page m).0).info.name
      → (device_register name type major minor (some ops) s m).0 ≡ success
      → Reaches name (device_register name type major minor (some ops) s m).1 ops
  unfolding new_info
  device_register-Reaches name type major minor ops s m ds l short room ok =
      elim (device_register-Pushed name type major minor (some ops) s m ds l) [
        | inl (failed, _, _, _) ↦ cc (failed, ok)
        | inr (_, _, l') ↦
            let old = (s.nodes (alloc_page m).0).info.name in
            let r = device_register name type major minor (some ops) s m in
            Reaches-ops name r.1 ops (
              ops_of-first name r.1 r.2 (alloc_page m).0
                (new_info old name type major minor (some ops)) ds l'
                (new_info-has_name old name type major minor (some ops) room short))
      ]
