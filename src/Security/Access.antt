-- ===== src/Security/Access.antt =====
-- Who may change what, and what the access control list answers.
use minimalist_os.Base.{
  ℕ, zero, suc, ◌≡◌, refl, sym, ap, ◌∙◌, ◌≢◌, List, [], ◌∷◌, not, ◌&&◌, Option, none, some, failure,
  ◌==◌, arith, get_or, inl, inr, Option-cases, Bool-cases,
}
use mathlib.Core.Path.{subst}
use minimalist_os.Security.{
  Security, root_uid, security_set_context, security_set_permission, security_create_user,
  security_delete_user, security_set_user_password, security_authenticate_user, authenticate,
  zero_user, find_user,
}

-- The calls that can change the state.
pub data Op : Type 0 where
  set_context : ℕ → ℕ → Op
  set_permission : Option (List ℕ) → ℕ → ℕ → ℕ → Op
  create_user : Option (List ℕ) → ℕ → ℕ → Op
  delete_user : ℕ → Op
  set_user_password : ℕ → Option (List ℕ) → Op
  authenticate_user : Option (List ℕ) → Option (List ℕ) → Op

pub step : Op → Security → Security
step (set_context uid gid) s = (security_set_context uid gid s).1
step (set_permission resource uid gid perm) s = (security_set_permission resource uid gid perm s).1
step (create_user username uid gid) s = (security_create_user username uid gid s).1
step (delete_user uid) s = (security_delete_user uid s).1
step (set_user_password uid password) s = (security_set_user_password uid password s).1
step (authenticate_user username password) s = (security_authenticate_user username password s).1

pub run : List Op → Security → Security
run [] s = s
run (op ∷ ops) s = run ops (step op s)

-- What a caller without root rights leaves alone.
pub record SameRights (s s' : Security) : Type 0 where
  pub context : s'.current_context ≡ s.current_context
  pub acl : s'.acl_table ≡ s.acl_table
  pub acl_size : s'.acl_count ≡ s.acl_count
  pub users : s'.user_count ≡ s.user_count

pub SameRights-refl : (s : Security) → SameRights s s
SameRights-refl s = record { context = refl; acl = refl; acl_size = refl; users = refl }

pub SameRights-trans :
    {s s' s'' : Security} → SameRights s s' → SameRights s' s'' → SameRights s s''
SameRights-trans now later = record {
  context = later.context ∙ now.context;
  acl = later.acl ∙ now.acl;
  acl_size = later.acl_size ∙ now.acl_size;
  users = later.users ∙ now.users;
}

pub SameRights-same : {s s' : Security} → s' ≡ s → SameRights s s'
SameRights-same {s} e = subst (λ t. SameRights s t) (sym e) (SameRights-refl s)

module _ (s : Security) (not_root : s.current_context.uid ≢ root_uid) where
  pub set_context-refused : (uid gid : ℕ) → security_set_context uid gid s ≡ (failure, s)
  unfolding security_set_context
  set_context-refused uid gid = ground arith

  pub set_permission-refused :
      (resource : Option (List ℕ)) (uid gid perm : ℕ)
      → security_set_permission resource uid gid perm s ≡ (failure, s)
  unfolding security_set_permission
  set_permission-refused none uid gid perm = refl
  set_permission-refused (some resource) uid gid perm = ground arith

  create_user-refused :
      (username : Option (List ℕ)) (uid gid : ℕ)
      → security_create_user username uid gid s ≡ (failure, s)
  unfolding security_create_user
  create_user-refused none uid gid = refl
  create_user-refused (some username) uid gid = ground arith

  delete_user-refused : (uid : ℕ) → security_delete_user uid s ≡ (failure, s)
  unfolding security_delete_user
  delete_user-refused uid = ground arith

  authenticate-same :
      (username password : List ℕ) (i n : ℕ) → (authenticate username password s i n).1 ≡ s
  unfolding authenticate
  authenticate-same username password i zero = refl
  authenticate-same username password i (suc n) = ground (
    arith,
    authenticate-same username password (suc i) n,
    set_context-refused (get_or s.user_db i zero_user).uid (get_or s.user_db i zero_user).gid,
  )

  authenticate_user-same :
      (username password : Option (List ℕ)) → (security_authenticate_user username password s).1 ≡ s
  unfolding security_authenticate_user
  authenticate_user-same none password = refl
  authenticate_user-same (some username) none = refl
  authenticate_user-same (some username) (some password) =
      authenticate-same username password 0 s.user_count

pub set_user_password-SameRights :
    (s : Security) (uid : ℕ) (password : Option (List ℕ))
    → SameRights s (security_set_user_password uid password s).1
unfolding security_set_user_password
set_user_password-SameRights s uid none = SameRights-refl s
set_user_password-SameRights s uid (some password) =
    elim (Bool-cases
      (not (s.current_context.uid == root_uid) && not (s.current_context.uid == uid))) [
        | inl refused ↦ rw refused (SameRights-refl s)
        | inr granted ↦ elim (Option-cases (find_user (λ u. u.uid == uid && u.active) s)) [
          | inl missing ↦ rw granted (rw missing (SameRights-refl s))
          | inr (i, found) ↦
              rw granted
                (rw found (record { context = refl; acl = refl; acl_size = refl; users = refl }))
        ]
      ]

step-SameRights :
    (op : Op) (s : Security) → s.current_context.uid ≢ root_uid → SameRights s (step op s)
unfolding step
step-SameRights (set_context uid gid) s h =
    SameRights-same (ap (λ r. r.1) (set_context-refused s h uid gid))
step-SameRights (set_permission resource uid gid perm) s h =
    SameRights-same (ap (λ r. r.1) (set_permission-refused s h resource uid gid perm))
step-SameRights (create_user username uid gid) s h =
    SameRights-same (ap (λ r. r.1) (create_user-refused s h username uid gid))
step-SameRights (delete_user uid) s h =
    SameRights-same (ap (λ r. r.1) (delete_user-refused s h uid))
step-SameRights (set_user_password uid password) s h = set_user_password-SameRights s uid password
step-SameRights (authenticate_user username password) s h =
    SameRights-same (authenticate_user-same s h username password)

-- Where the current user is not root, no sequence of calls changes the security context, the access
-- control list or the number of users.
pub run-SameRights :
    (ops : List Op) (s : Security) → s.current_context.uid ≢ root_uid → SameRights s (run ops s)
unfolding run
run-SameRights [] s h = SameRights-refl s
run-SameRights (op ∷ ops) s h =
    let now = step-SameRights op s h in
    let still : (step op s).current_context.uid ≢ root_uid =
      λ e. h (ap (λ c. c.uid) (sym now.context) ∙ e) in
    let later = run-SameRights ops (step op s) still in SameRights-trans now later
