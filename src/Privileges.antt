-- ===== src/Privileges.antt =====
-- src/ug.c: changeUIDAndGID. getpwnam and getgrnam are the C library's: parameters that give the id
-- of a name, if there is one.
pub mod Dropped
use bdremote_ng.Prelude.{
  ℕ, ℤ, pos, minus_one, eq_ℤ, Bool, true, false, Option, none, some, List, [], ◌∷◌, if◌then◌else◌,
}
use bdremote_ng.Text.{CString}
use bdremote_ng.Sys.{Env, Trace, perform, setgid, setuid}

-- BDREMOTE_OK if both calls gave 0
abbrev both_zero : ℤ → ℤ → ℤ
both_zero a b =
    let result = if eq_ℤ a (pos 0) then pos 0 else minus_one in
    if eq_ℤ b (pos 0) then result else minus_one

-- both ids are known: setgid first, then setuid, whatever setgid answered
unfoldable pub change_ids : Env → (uid gid : ℕ) → Trace → ℤ × Trace
change_ids env uid gid t =
    let (a, t1) = perform env (setgid gid) t in
    let (b, t2) = perform env (setuid uid) t1 in (both_zero a b, t2)

with_group : Env → ℕ → Option ℕ → Trace → ℤ × Trace
unfolding change_ids
with_group env uid none t = (minus_one, t)
with_group env uid (some gid) t = change_ids env uid gid t

with_user : Env → Option ℕ → Option ℕ → Trace → ℤ × Trace
unfolding with_group
with_user env none gid t = (minus_one, t)
with_user env (some uid) gid t = with_group env uid gid t

-- changeUIDAndGID
unfoldable pub change_uid_and_gid :
    (getpwnam getgrnam : CString → Option ℕ) → Env → (user group : CString) → Trace → ℤ × Trace
unfolding with_user
change_uid_and_gid getpwnam getgrnam env user group t =
    with_user env (getpwnam user) (getgrnam group) t
