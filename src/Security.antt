-- ===== src/Security.antt =====
-- kernel/security.c: the security context, the users and the access control list.
pub mod Access
pub mod Acl
mod Tests
use Prim.Native.Nat.{bit_and, bit_or}
use minimalist_os.Base.{
  ℕ, zero, suc, ◌+◌, ◌-◌, ◌%◌, ◌^◌, List, [], ◌∷◌, Bool, true, false, not, ◌&&◌, ◌||◌, Option, none,
  some, ℤ, success, failure, is_zero, ltb, leb, ◌==◌, if◌then◌else◌, get_or, set, replicate,
}
use minimalist_os.Base.Search.{find_index}
use minimalist_os.CString.{strcmp, store_name}

abbrev pub root_uid : ℕ
root_uid = 0

-- read, write, execute, delete and admin
abbrev pub perm_all : ℕ
perm_all = 0x80F

-- read and execute
abbrev pub perm_user : ℕ
perm_user = 0x005

pub record SecurityContext : Type 0 where
  pub uid : ℕ
  pub gid : ℕ
  pub euid : ℕ
  pub egid : ℕ
  pub permissions : ℕ

pub record UserEntry : Type 0 where
  pub username : List ℕ
  pub uid : ℕ
  pub gid : ℕ
  pub password : List ℕ
  pub active : Bool

pub record AclEntry : Type 0 where
  pub resource : List ℕ
  pub uid : ℕ
  pub gid : ℕ
  pub permissions : ℕ

pub record Security : Type 0 where
  pub current_context : SecurityContext
  pub user_db : List UserEntry
  pub user_count : ℕ
  pub acl_table : List AclEntry
  pub acl_count : ℕ

-- What `memset` leaves in the two tables.
unfoldable pub zero_user : UserEntry
zero_user = record {
  username = replicate 32 0;
  uid = 0;
  gid = 0;
  password = replicate 32 0;
  active = false;
}

unfoldable pub zero_acl : AclEntry
zero_acl = record { resource = replicate 64 0; uid = 0; gid = 0; permissions = 0 }

-- `(permissions & required) == required`
unfoldable pub allows : ℕ → ℕ → Bool
allows permissions required = bit_and permissions required == required

abbrev pub status : Bool → ℤ
status b = if b then success else failure

unfoldable pub security_set_context : ℕ → ℕ → Security → ℤ × Security
security_set_context uid gid s = if not (s.current_context.uid == root_uid) then (failure, s) else (
  success,
  record s {
    current_context = record {
      uid = uid;
      gid = gid;
      euid = uid;
      egid = gid;
      permissions = if uid == root_uid then perm_all else perm_user;
    };
  },
)

-- The Boolean says whether the caller's pointer is non-null.
unfoldable pub security_get_context : Bool → Security → ℤ × Option SecurityContext
security_get_context ctx s = if ctx then (success, some s.current_context) else (failure, none)

unfoldable pub security_check_permission : ℕ → Security → ℤ
security_check_permission required s = status (allows s.current_context.permissions required)

-- Does this entry of the list decide about the file for the current user?
unfoldable pub concerns : List ℕ → SecurityContext → AclEntry → Bool
concerns filename ctx e =
    is_zero (strcmp e.resource filename)
    && (e.uid == ctx.uid || e.gid == ctx.gid || e.uid == root_uid)

-- The loop of `security_check_file_access`.
unfoldable pub find_acl : List ℕ → Security → Option ℕ
find_acl filename s =
    find_index (concerns filename s.current_context) zero_acl s.acl_table 0 s.acl_count

unfoldable pub security_check_file_access : Option (List ℕ) → ℕ → Security → ℤ
security_check_file_access none required s = failure
security_check_file_access (some filename) required s = elim (find_acl filename s) [
  | some i ↦ status (allows (get_or s.acl_table i zero_acl).permissions required)
  | none ↦ security_check_permission required s
]

unfoldable pub security_check_device_access : Option (List ℕ) → ℕ → Security → ℤ
security_check_device_access none required s = failure
security_check_device_access (some devname) required s =
    if not (s.current_context.uid == root_uid)
    then failure
    else security_check_permission required s

-- Is this the entry for exactly this resource, user and group?
unfoldable pub is_entry : List ℕ → ℕ → ℕ → AclEntry → Bool
is_entry resource uid gid e = is_zero (strcmp e.resource resource) && e.uid == uid && e.gid == gid

-- The loop of `security_set_permission` and `security_get_permission`.
unfoldable pub find_entry : List ℕ → ℕ → ℕ → Security → Option ℕ
find_entry resource uid gid s =
    find_index (is_entry resource uid gid) zero_acl s.acl_table 0 s.acl_count

-- The entry that is added at the end.
unfoldable pub new_entry : Security → List ℕ → ℕ → ℕ → ℕ → AclEntry
new_entry s resource uid gid perm = record {
  resource = store_name 64 (get_or s.acl_table s.acl_count zero_acl).resource resource;
  uid = uid;
  gid = gid;
  permissions = perm;
}

unfoldable pub security_set_permission : Option (List ℕ) → ℕ → ℕ → ℕ → Security → ℤ × Security
security_set_permission none uid gid perm s = (failure, s)
security_set_permission (some resource) uid gid perm s =
    if leb 64 s.acl_count
    then (failure, s)
    else if not (s.current_context.uid == root_uid)
    then (failure, s)
    else elim (find_entry resource uid gid s) [
      | some i ↦ (
        success,
        record s {
          acl_table =
              set s.acl_table i (record (get_or s.acl_table i zero_acl) { permissions = perm });
        },
      )
      | none ↦ (
        success,
        record s {
          acl_table = set s.acl_table s.acl_count (new_entry s resource uid gid perm);
          acl_count = s.acl_count + 1;
        },
      )
    ]

-- The Boolean says whether `perm` is non-null; the option is what is stored through it.
unfoldable pub security_get_permission : Option (List ℕ) → ℕ → ℕ → Bool → Security → ℤ × Option ℕ
security_get_permission none uid gid perm s = (failure, none)
security_get_permission (some resource) uid gid perm s =
    if not perm then (failure, none) else elim (find_entry resource uid gid s) [
      | some i ↦ (success, some (get_or s.acl_table i zero_acl).permissions)
      | none ↦ (failure, none)
    ]

-- The loops over the users: the first that passes the test.
unfoldable pub find_user : (UserEntry → Bool) → Security → Option ℕ
find_user test s = find_index test zero_user s.user_db 0 s.user_count

unfoldable pub has_name : List ℕ → UserEntry → Bool
has_name username u = is_zero (strcmp u.username username)

unfoldable pub new_user : Security → List ℕ → ℕ → ℕ → UserEntry
new_user s username uid gid = record {
  username = store_name 32 (get_or s.user_db s.user_count zero_user).username username;
  uid = uid;
  gid = gid;
  password = set (get_or s.user_db s.user_count zero_user).password 0 0;
  active = true;
}

unfoldable pub security_create_user : Option (List ℕ) → ℕ → ℕ → Security → ℤ × Security
security_create_user none uid gid s = (failure, s)
security_create_user (some username) uid gid s =
    if leb 16 s.user_count
    then (failure, s)
    else if not (s.current_context.uid == root_uid)
    then (failure, s)
    else elim (find_user (has_name username) s) [
      | some i ↦ (failure, s)
      | none ↦ (
        success,
        record s {
          user_db = set s.user_db s.user_count (new_user s username uid gid);
          user_count = s.user_count + 1;
        },
      )
    ]

unfoldable pub security_delete_user : ℕ → Security → ℤ × Security
security_delete_user uid s =
    if not (s.current_context.uid == root_uid)
    then (failure, s)
    else if uid == root_uid
    then (failure, s)
    else elim (find_user (λ u. u.uid == uid) s) [
      | some i ↦ (
        success,
        record s {
          user_db = set s.user_db i (record (get_or s.user_db i zero_user) { active = false });
        },
      )
      | none ↦ (failure, s)
    ]

unfoldable pub security_set_user_password : ℕ → Option (List ℕ) → Security → ℤ × Security
security_set_user_password uid none s = (failure, s)
security_set_user_password uid (some password) s =
    if not (s.current_context.uid == root_uid) && not (s.current_context.uid == uid)
    then (failure, s)
    else elim (find_user (λ u. u.uid == uid && u.active) s) [
      | some i ↦
          let u = get_or s.user_db i zero_user in
          (
            success,
            record s {
              user_db = set s.user_db i (record u { password = store_name 32 u.password password });
            },
          )
      | none ↦ (failure, s)
    ]

-- The loop of `security_authenticate_user`: `n` users are left, from the `i`-th on. The status of
-- `security_set_context` is dropped.
unfoldable pub authenticate : List ℕ → List ℕ → Security → ℕ → ℕ → ℤ × Security
authenticate username password s i zero = (failure, s)
authenticate username password s i (suc n) =
    let rest = authenticate username password s (suc i) n in
    let u = get_or s.user_db i zero_user in
    if u.active && is_zero (strcmp u.username username) && is_zero (strcmp u.password password)
    then (success, (security_set_context u.uid u.gid s).1)
    else rest

unfoldable pub security_authenticate_user :
    Option (List ℕ) → Option (List ℕ) → Security → ℤ × Security
security_authenticate_user none password s = (failure, s)
security_authenticate_user (some username) none s = (failure, s)
security_authenticate_user (some username) (some password) s =
    authenticate username password s 0 s.user_count

-- The names that `security_init` uses.
abbrev pub dev : List ℕ
dev = b'/' ∷ b'd' ∷ b'e' ∷ b'v' ∷ 0 ∷ []

abbrev pub proc : List ℕ
proc = b'/' ∷ b'p' ∷ b'r' ∷ b'o' ∷ b'c' ∷ 0 ∷ []

abbrev pub sys : List ℕ
sys = b'/' ∷ b's' ∷ b'y' ∷ b's' ∷ 0 ∷ []

abbrev pub root : List ℕ
root = b'r' ∷ b'o' ∷ b'o' ∷ b't' ∷ 0 ∷ []

unfoldable pub root_context : SecurityContext
root_context = record {
  uid = root_uid;
  gid = root_uid;
  euid = root_uid;
  egid = root_uid;
  permissions = perm_all;
}

unfoldable pub cleared : Security
cleared = record {
  current_context = root_context;
  user_db = replicate 16 zero_user;
  user_count = 0;
  acl_table = replicate 64 zero_acl;
  acl_count = 0;
}

unfoldable pub security_init : Security
security_init =
    let s1 = (security_create_user (some root) root_uid root_uid cleared).1 in
    let s2 = (security_set_permission (some dev) root_uid root_uid 0x803 s1).1 in
    let s3 = (security_set_permission (some proc) root_uid root_uid 0x801 s2).1 in
    (security_set_permission (some sys) root_uid root_uid 0x801 s3).1
