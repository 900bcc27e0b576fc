-- ===== src/Security/Acl.antt =====
-- What `security_set_permission` stores and `security_get_permission` and
-- `security_check_file_access` answer.
use minimalist_os.Base.{
  ℕ, ◌+◌, ◌≤◌, ◌<◌, ◌≡◌, refl, ap, ◌∙◌, List, true, false, none, some, pos, success, is_zero, arith,
  get_or, set, length, get_or-set_self, get_or-set_ne, inl, inr, Option-cases, take_self,
}
use minimalist_os.Base.Search.{find_index-Found, find_index-none, find_index_of}
use minimalist_os.CString.{strcmp, strlen, text, store_name}
use minimalist_os.CString.Compare.{strcmp-zero_iff, strlen_lem}
use minimalist_os.CString.Copy.{text-store_name}
use minimalist_os.Security.{
  Security, SecurityContext, AclEntry, zero_acl, root_uid, security_set_permission,
  security_get_permission, find_entry, is_entry, new_entry, allows, status, concerns, find_acl,
  security_check_file_access,
}

-- The access control list: its table has the 64 entries of the source, each with a name field of
-- 64 bytes, and the count stays within it.
pub record IsValid (s : Security) : Type 0 where
  pub table : length s.acl_table ≡ 64
  pub count : s.acl_count ≤ 64
  pub fields : (i : ℕ) → length (get_or s.acl_table i zero_acl).resource ≡ 64

-- The entry that is written is found by its name.
permissions-new_entry :
    (s : Security) (resource : List ℕ) (uid gid perm : ℕ)
    → (new_entry s resource uid gid perm).permissions ≡ perm
unfolding new_entry
permissions-new_entry s resource uid gid perm = refl

new_entry-is_entry :
    (s : Security) (resource : List ℕ) (uid gid perm : ℕ)
    → IsValid s
    → strlen resource < 64
    → is_entry resource uid gid (new_entry s resource uid gid perm) ≡ true
unfolding is_entry new_entry
new_entry-is_entry s resource uid gid perm valid short =
    let r = (get_or s.acl_table s.acl_count zero_acl).resource in
    let same : text (store_name 64 r resource) ≡ text resource =
      text-store_name 64 r resource (omega arith) (omega (arith, valid.fields s.acl_count))
      ∙ take_self 63 (text resource) (omega (arith, strlen_lem resource)) in
    let equal : strcmp (store_name 64 r resource) resource ≡ pos 0 =
      (strcmp-zero_iff (store_name 64 r resource) resource).1 same in
    rw equal (ground arith)

-- An entry whose rights alone change is still found.
updated-is_entry :
    (e : AclEntry) (resource : List ℕ) (uid gid perm : ℕ)
    → is_entry resource uid gid (record e { permissions = perm }) ≡ is_entry resource uid gid e
unfolding is_entry
updated-is_entry e resource uid gid perm = refl

-- The two ways in which root's call succeeds.
module _ (s : Security) (resource : List ℕ) (uid gid perm : ℕ)
    (by_root : s.current_context.uid ≡ root_uid) (room : s.acl_count < 64) where
  added : Security
  added = record s {
    acl_table = set s.acl_table s.acl_count (new_entry s resource uid gid perm);
    acl_count = s.acl_count + 1;
  }

  set_permission-add :
      find_entry resource uid gid s ≡ none
      → security_set_permission (some resource) uid gid perm s ≡ (success, added)
  unfolding security_set_permission added
  set_permission-add missing = rw missing (ground arith)

  updated : ℕ → Security
  updated i = record s {
    acl_table = set s.acl_table i (record (get_or s.acl_table i zero_acl) { permissions = perm });
  }

  set_permission-update :
      (i : ℕ)
      → find_entry resource uid gid s ≡ some i
      → security_set_permission (some resource) uid gid perm s ≡ (success, updated i)
  unfolding security_set_permission updated
  set_permission-update i found = rw found (ground arith)

  module _ (valid : IsValid s) where
    find_entry-added :
        strlen resource < 64
        → find_entry resource uid gid s ≡ none
        → find_entry resource uid gid added ≡ some s.acl_count
    unfolding find_entry added
    find_entry-added short missing =
        let test = is_entry resource uid gid in
        let new = new_entry s resource uid gid perm in
        let here : s.acl_count < length s.acl_table = omega (arith, valid.table) in
        find_index_of test zero_acl (set s.acl_table s.acl_count new) 0 (s.acl_count + 1)
          s.acl_count (omega arith) (omega arith)
          (rw (get_or-set_self s.acl_table s.acl_count new zero_acl here)
            (new_entry-is_entry s resource uid gid perm valid short))
          (λ j lo hi.
            rw (get_or-set_ne s.acl_table s.acl_count j new zero_acl (λ e. absurd (omega arith)))
              (find_index-none test zero_acl s.acl_table 0 s.acl_count missing j lo (omega arith)))

    entry-added : get_or added.acl_table s.acl_count zero_acl ≡ new_entry s resource uid gid perm
    unfolding added
    entry-added =
        get_or-set_self s.acl_table s.acl_count (new_entry s resource uid gid perm) zero_acl
          (omega (arith, valid.table))

    find_entry-updated :
        (i : ℕ)
        → find_entry resource uid gid s ≡ some i
        → find_entry resource uid gid (updated i) ≡ some i
    unfolding find_entry updated
    find_entry-updated i found =
        let test = is_entry resource uid gid in
        let old = get_or s.acl_table i zero_acl in
        let new : AclEntry = record old { permissions = perm } in
        let f = find_index-Found test zero_acl s.acl_table 0 s.acl_count i found in
        let here : i < length s.acl_table = omega (arith, valid.table, valid.count, f.below) in
        find_index_of test zero_acl (set s.acl_table i new) 0 s.acl_count i f.from f.below
          (rw (get_or-set_self s.acl_table i new zero_acl here)
            (updated-is_entry old resource uid gid perm ∙ f.passes))
          (λ j lo hi.
            rw (get_or-set_ne s.acl_table i j new zero_acl (λ e. absurd (omega arith)))
              (f.first j lo hi))

    permissions-updated :
        (i : ℕ)
        → find_entry resource uid gid s ≡ some i
        → (get_or (updated i).acl_table i zero_acl).permissions ≡ perm
    unfolding find_entry updated
    permissions-updated i found =
        let f =
          find_index-Found (is_entry resource uid gid) zero_acl s.acl_table 0 s.acl_count i found in
        ap (λ e. e.permissions)
          (get_or-set_self s.acl_table i
            (record (get_or s.acl_table i zero_acl) { permissions = perm }) zero_acl
            (omega (arith, valid.table, valid.count, f.below)))

get_permission-found :
    (s : Security) (resource : List ℕ) (uid gid i perm : ℕ)
    → find_entry resource uid gid s ≡ some i
    → (get_or s.acl_table i zero_acl).permissions ≡ perm
    → security_get_permission (some resource) uid gid true s ≡ (success, some perm)
unfolding security_get_permission
get_permission-found s resource uid gid i perm found e = rw found (ap (λ p. (success, some p)) e)

-- A call by root with a name of fewer than 64 bytes, while the list has a free entry, succeeds; then
-- `security_get_permission` reads back the rights that were set.
pub security_get_permission-security_set_permission :
    (s : Security) (resource : List ℕ) (uid gid perm : ℕ)
    → IsValid s
    → s.current_context.uid ≡ root_uid
    → s.acl_count < 64
    → strlen resource < 64
    → ((security_set_permission (some resource) uid gid perm s).0 ≡ success)
      × (security_get_permission
            (some resource)
            uid
            gid
            true
            (security_set_permission (some resource) uid gid perm s).1
          ≡ (success, some perm))
security_get_permission-security_set_permission s resource uid gid perm valid by_root room short =
    elim (Option-cases (find_entry resource uid gid s)) [
      | inl missing ↦ rw (set_permission-add s resource uid gid perm by_root room missing) (
        refl,
        get_permission-found (added s resource uid gid perm by_root room) resource uid gid
            s.acl_count perm
            (find_entry-added s resource uid gid perm by_root room valid short missing)
            (rw (entry-added s resource uid gid perm by_root room valid)
              (permissions-new_entry s resource uid gid perm)),
      )
      | inr (i, found) ↦ rw (set_permission-update s resource uid gid perm by_root room i found) (
        refl,
        get_permission-found (updated s resource uid gid perm by_root room i) resource uid gid i
            perm (find_entry-updated s resource uid gid perm by_root room valid i found)
            (permissions-updated s resource uid gid perm by_root room valid i found),
      )
    ]

check_file_access-found :
    (s : Security) (filename : List ℕ) (required k : ℕ)
    → find_acl filename s ≡ some k
    → security_check_file_access (some filename) required s
      ≡ status (allows (get_or s.acl_table k zero_acl).permissions required)
unfolding security_check_file_access
check_file_access-found s filename required k found = cc found

module _ (s : Security) (filename : List ℕ) (required k : ℕ) (lt : k < s.acl_count)
    (name : text (get_or s.acl_table k zero_acl).resource ≡ text filename)
    (owner : (get_or s.acl_table k zero_acl).uid ≡ root_uid)
    (before : (j : ℕ)
      → j < k
      → is_zero (strcmp (get_or s.acl_table j zero_acl).resource filename) ≡ false)
    (ctx : SecurityContext) where
  find_acl-root_entry : find_acl filename (record s { current_context = ctx }) ≡ some k
  unfolding find_acl concerns
  find_acl-root_entry =
      let e = get_or s.acl_table k zero_acl in
      let same : strcmp e.resource filename ≡ pos 0 =
        (strcmp-zero_iff e.resource filename).1 name in
      find_index_of (concerns filename ctx) zero_acl s.acl_table 0 s.acl_count k (omega arith)
        (omega arith) (rw same (ground arith)) (λ j lo hi. rw (before j hi) refl)

  -- The first entry for a file, where root owns it, decides for every user: whatever the security
  -- context, `security_check_file_access` answers by the rights of that entry. The names before it
  -- differ from the file's.
  pub security_check_file_access-root_entry :
      security_check_file_access (some filename) required (record s { current_context = ctx })
      ≡ status (allows (get_or s.acl_table k zero_acl).permissions required)
  security_check_file_access-root_entry =
      check_file_access-found (record s { current_context = ctx }) filename required k
        find_acl-root_entry
