-- ===== src/Security/Tests.antt =====
-- Runs of the security calls.
use minimalist_os.Base.{
  ℕ, ◌<◌, ◌≡◌, refl, some, success, arith, length, get_or, set, replicate, zero, suc, true,
}
use minimalist_os.CString.{text, strlen}
use minimalist_os.Security.{
  Security, zero_acl, cleared, root_context, security_set_permission, security_get_permission, dev,
  root_uid,
}
use minimalist_os.Security.Acl.{IsValid, security_get_permission-security_set_permission}

-- A state whose current user is 1000, with one entry of the list.
unfoldable guest : Security
guest = record cleared {
  current_context = record { uid = 1000; gid = 1000; euid = 1000; egid = 1000; permissions = 5 };
  acl_table =
      set (replicate 64 zero_acl) 0 (record zero_acl { resource = dev; permissions = 0x803 });
  acl_count = 1;
}

-- An entry of a table of empty entries has a full name field.
replicated : (n i : ℕ) → length (get_or (replicate n zero_acl) i zero_acl).resource ≡ 64
unfolding zero_acl
replicated zero i = refl
replicated (suc n) zero = refl
replicated (suc n) (suc i) = replicated n i

strlen-dev : strlen dev < 64
unfolding strlen
strlen-dev = omega arith

guest-count : 0 < guest.acl_count
unfolding guest
guest-count = omega arith

guest-name : text (get_or guest.acl_table 0 zero_acl).resource ≡ text dev
unfolding guest
guest-name = refl

guest-owner : (get_or guest.acl_table 0 zero_acl).uid ≡ root_uid
unfolding guest zero_acl
guest-owner = refl

cleared-fields : (i : ℕ) → length (get_or cleared.acl_table i zero_acl).resource ≡ 64
unfolding cleared
cleared-fields i = replicated 64 i

cleared-IsValid : IsValid cleared
unfolding cleared
cleared-IsValid = record { table = refl; count = omega arith; fields = cleared-fields }

security_get_permission-security_set_permission_example :
    ((security_set_permission (some dev) 7 8 3 cleared).0 ≡ success)
    × (security_get_permission
          (some dev)
          7
          8
          true
          (security_set_permission (some dev) 7 8 3 cleared).1
        ≡ (success, some 3))
unfolding cleared root_context
security_get_permission-security_set_permission_example =
    security_get_permission-security_set_permission cleared dev 7 8 3 cleared-IsValid refl
      (omega arith) strlen-dev
