-- ===== src/Privileges/Dropped.antt =====
-- src/ug.c: when the change of the identity is reported as done.
use bdremote_ng.Prelude.{
  ℕ, ℤ, pos, eq_ℤ_iff, Option, none, some, ◌∷◌, ◌≡◌, refl, ap₂, arith, ◌⊎◌, inr, minus_one, [],
}
use bdremote_ng.Text.{CString}
use bdremote_ng.Sys.{Env, Trace, Event, setgid, setuid}
use bdremote_ng.Sys.Descriptors.{IsBalanced}
use bdremote_ng.Privileges.{both_zero, change_ids, with_user, with_group, change_uid_and_gid}

-- From `t` to `t'` the group was changed to `gid`, then the user to `uid`, and both calls succeeded.
abbrev pub Dropped : ℕ → ℕ → Trace → Trace → Type 0
Dropped uid gid t t' =
    t'
    ≡ record { call = setuid uid; result = pos 0 }
      ∷ record { call = setgid gid; result = pos 0 }
      ∷ t

both_zero-zero : (a b : ℤ) → both_zero a b ≡ pos 0 → (a ≡ pos 0) × (b ≡ pos 0)
both_zero-zero a b e = ground (arith, eq_ℤ_iff a (pos 0), eq_ℤ_iff b (pos 0))

change_ids-Dropped :
    (env : Env) (uid gid : ℕ) (t : Trace)
    → (change_ids env uid gid t).0 ≡ pos 0
    → Dropped uid gid t (change_ids env uid gid t).1
unfolding change_ids
change_ids-Dropped env uid gid t e =
    let first : Event = record { call = setgid gid; result = env.answer t (setgid gid) } in
    let (group_ok, user_ok) =
      both_zero-zero (env.answer t (setgid gid)) (env.answer (first ∷ t) (setuid uid)) e in
    ap₂
      (λ (a b : ℤ).
        record { call = setuid uid; result = b } ∷ record { call = setgid gid; result = a } ∷ t)
      group_ok user_ok

-- changeUIDAndGID returns BDREMOTE_OK only if the user and the group both exist, the group was
-- changed before the user, to the ids of these names, and both calls succeeded; no other call that
-- changes the identity was made.
pub change_uid_and_gid-Dropped :
    (getpwnam getgrnam : CString → Option ℕ) (env : Env) (user group : CString) (t : Trace)
    → (change_uid_and_gid getpwnam getgrnam env user group t).0 ≡ pos 0
    → (uid : ℕ) × (gid : ℕ) × (getpwnam user ≡ some uid)
      × (getgrnam group ≡ some gid)
      × Dropped uid gid t (change_uid_and_gid getpwnam getgrnam env user group t).1
unfolding change_uid_and_gid with_user with_group
change_uid_and_gid-Dropped getpwnam getgrnam env user group t e =
    by_ids (getpwnam user) (getgrnam group) e
  where
    by_ids :
        (u g : Option ℕ)
        → (with_user env u g t).0 ≡ pos 0
        → (uid : ℕ) × (gid : ℕ) × (u ≡ some uid)
          × (g ≡ some gid)
          × Dropped uid gid t (with_user env u g t).1
    by_ids none g h = cc
    by_ids (some uid) none h = cc
    by_ids (some uid) (some gid) h = (uid, gid, refl, refl, change_ids-Dropped env uid gid t h)

-- The result is BDREMOTE_OK or BDREMOTE_FAIL.
pub change_uid_and_gid-result :
    (getpwnam getgrnam : CString → Option ℕ) (env : Env) (user group : CString) (t : Trace)
    → let r = (change_uid_and_gid getpwnam getgrnam env user group t).0 in
      (r ≡ pos 0) ⊎ (r ≡ minus_one)
unfolding change_uid_and_gid with_user with_group change_ids
change_uid_and_gid-result getpwnam getgrnam env user group t =
    by_ids (getpwnam user) (getgrnam group)
  where
    by_ids :
        (u g : Option ℕ) → ((with_user env u g t).0 ≡ pos 0) ⊎ ((with_user env u g t).0 ≡ minus_one)
    by_ids none g = inr refl
    by_ids (some uid) none = inr refl
    by_ids (some uid) (some gid) = ground arith

pub change_uid_and_gid-IsBalanced :
    (getpwnam getgrnam : CString → Option ℕ) (env : Env) (user group : CString) (t : Trace) (n : ℕ)
    → IsBalanced (pos n) [] t [] (change_uid_and_gid getpwnam getgrnam env user group t).1
unfolding change_uid_and_gid with_user with_group change_ids
change_uid_and_gid-IsBalanced getpwnam getgrnam env user group t n =
    by_ids (getpwnam user) (getgrnam group)
  where
    by_ids : (u g : Option ℕ) → IsBalanced (pos n) [] t [] (with_user env u g t).1
    by_ids none g = refl
    by_ids (some uid) none = refl
    by_ids (some uid) (some gid) = omega arith
