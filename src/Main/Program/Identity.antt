-- ===== src/Main/Program/Identity.antt =====
-- src/bdremoteng.c: the change of user and group in main.
use bdremote_ng.Prelude.{
  ℕ, ℤ, pos, minus_one, eq_ℤ, eq_ℤ_iff, true, false, ◌≡◌, ap, Option, some, List, ◌∷◌, Bool-cases,
  inl, inr, Outcome, ok,
}
use bdremote_ng.Text.{CString}
use bdremote_ng.Sys.{Env, Trace, perform, getuid, geteuid}
use bdremote_ng.Config.{Configuration, user_and_group_set}
use bdremote_ng.Privileges.{change_uid_and_gid}
use bdremote_ng.Privileges.Dropped.{Dropped, change_uid_and_gid-Dropped, change_uid_and_gid-result}
use bdremote_ng.Capture.{CaptureData}
use bdremote_ng.Capture.Bluetooth.{init_capture_loop}
use bdremote_ng.Capture.Bluetooth.Sockets.{
  SetUp, ready, failed, leaked, no_bluetooth, no_room, init_capture_loop-SetUp,
}
use bdremote_ng.Main.Program.{
  Host, Variables, Stage, going, detach, change_identity, drop_privileges, with_sockets,
  with_variables, prepare, set_variables, text,
}

-- The last calls in the trace `t'`, after those in `t`: as root, the group and the user were changed,
-- to the ids of `user` and `group`.
abbrev pub ChangedBy : Host → (user group : CString) → Trace → Trace → Type 0
ChangedBy h user group t t' =
    (uid : ℕ) × (gid : ℕ) × (h.getpwnam user ≡ some uid)
    × (h.getgrnam group ≡ some gid)
    × Dropped uid gid
        (record { call = geteuid; result = pos 0 } ∷ record { call = getuid; result = pos 0 } ∷ t)
        t'

change_identity-ChangedBy :
    (h : Host) (env : Env) (c : Configuration) {user group : CString} (t : Trace)
    → c.user ≡ some user
    → c.group ≡ some group
    → eq_ℤ (change_identity h env c t).0 minus_one ≡ false
    → ChangedBy h user group t (change_identity h env c t).1
unfolding change_identity text
change_identity-ChangedBy h env c {user} {group} t u g done =
    let (uid, t1) = perform env getuid t in
    let (euid, t2) = perform env geteuid t1 in
    elim (Bool-cases (eq_ℤ uid (pos 0))) [
      | inr not_root ↦ cc (simp not_root at done)
      | inl root ↦ elim (Bool-cases (eq_ℤ euid (pos 0))) [
        | inr not_root ↦ cc (simp (root, not_root) at done)
        | inl both ↦ simp (root, both) (as_root uid euid root both (simp (root, both) at done))
      ]
    ]
  where
    with_result :
        let t2 =
          record { call = geteuid; result = pos 0 }
          ∷ record { call = getuid; result = pos 0 }
          ∷ t in
        let (r, t') = change_uid_and_gid h.getpwnam h.getgrnam env user group t2 in
        eq_ℤ r minus_one ≡ false → ChangedBy h user group t t'
    with_result done =
        let t2 =
          record { call = geteuid; result = pos 0 }
          ∷ record { call = getuid; result = pos 0 }
          ∷ t in
        elim (change_uid_and_gid-result h.getpwnam h.getgrnam env user group t2) [
          | inl good ↦ change_uid_and_gid-Dropped h.getpwnam h.getgrnam env user group t2 good
          | inr bad ↦ cc (simp bad at done)
        ]

    as_root :
        (uid euid : ℤ)
        → eq_ℤ uid (pos 0) ≡ true
        → eq_ℤ euid (pos 0) ≡ true
        → let t2 =
            record { call = geteuid; result = euid } ∷ record { call = getuid; result = uid } ∷ t in
          let (r, t') =
            change_uid_and_gid h.getpwnam h.getgrnam env (text c.user) (text c.group) t2 in
          eq_ℤ r minus_one ≡ false → ChangedBy h user group t t'
    as_root uid euid root both done =
        let zero = (eq_ℤ_iff uid (pos 0)).0 root in
        let also = (eq_ℤ_iff euid (pos 0)).0 both in
        let named = ap text u in
        let in_group = ap text g in
        simp (zero, also, named, in_group)
          (with_result (simp (zero, also, named, in_group) at done))

going-injective :
    {v v' : Variables} {t t' : Trace}
    → ◌≡◌ {A = Stage Variables × Trace} (going v, t) (going v', t')
    → (v ≡ v') × (t ≡ t')
going-injective e = (cc, cc)

drop_privileges-ChangedBy :
    (h : Host) (env : Env) (v : Variables) (t : Trace) {v' : Variables} {t' : Trace}
    {user group : CString}
    → drop_privileges h env v t ≡ (going v', t')
    → v.config.user ≡ some user
    → v.config.group ≡ some group
    → (v ≡ v') × ChangedBy h user group t t'
unfolding drop_privileges user_and_group_set
drop_privileges-ChangedBy h env v t {v'} {t'} {user} {group} e u g =
    elim (Bool-cases (eq_ℤ (change_identity h env v.config t).0 minus_one)) [
      | inl refused ↦ cc (simp (u, g, refused) at e)
      | inr done ↦
          let same = simp (u, g, done) at e in
          let changed = change_identity-ChangedBy h env v.config t u g done in
          let (one, two) = going-injective same in (one, rw two at changed)
    ]

-- The part of main from InitcaptureLoop to the log file.
with_sockets-ChangedBy :
    (h : Host) (env : Env) (v : Variables) (t : Trace) {v' : Variables} {t' : Trace}
    {user group : CString} (o : Outcome (ℤ × CaptureData × Trace))
    → SetUp h.bluez env t o
    → with_sockets h env v t o ≡ (going v', t')
    → v.config.user ≡ some user
    → v.config.group ≡ some group
    → (t1 : Trace) × (o ≡ ok (pos 0, v'.cdata, t1)) × ChangedBy h user group t1 t'
unfolding with_sockets
with_sockets-ChangedBy h env v t o (ready {cd} {t' = t1} ctl csk isk e b) at u g =
    let (same, changed) = drop_privileges-ChangedBy h env (record v { cdata = cd }) t1 at u g in
    (t1, ap (λ (w : Variables). ok (pos 0, w.cdata, t1)) same, changed)
with_sockets-ChangedBy h env v t o (failed b) at u g = cc
with_sockets-ChangedBy h env v t o (leaked ctl why b) at u g = cc
with_sockets-ChangedBy h env v t o no_bluetooth at u g = cc
with_sockets-ChangedBy h env v t o (no_room full) at u g = cc

-- If main comes to the log file and the command line gave a user and a group, then InitcaptureLoop
-- had given the Bluetooth sockets, and between its return and the log file there are just these
-- calls: main was root, and it changed the group and then the user, to the ids that these names
-- have, and both changes succeeded.
pub prepare-ChangedBy :
    (h : Host) (env : Env) (os : List (ℕ × Option CString)) (t : Trace) {v v' : Variables}
    {t' : Trace} {user group : CString}
    → set_variables h os ≡ ok v
    → prepare h env os t ≡ (going v', t')
    → v.config.user ≡ some user
    → v.config.group ≡ some group
    → (t1 : Trace) × (t2 : Trace) × (init_capture_loop h.bluez env v.cdata t1
        ≡ ok (pos 0, v'.cdata, t2))
      × ChangedBy h user group t2 t'
unfolding prepare with_variables
prepare-ChangedBy h env os t {v} set e u g =
    let (alone, t1) = detach env v.config t in
    elim (Bool-cases alone) [
      | inr stays ↦ cc (simp (set, stays) at e)
      | inl away ↦
          let (t2, made, changed) =
            with_sockets-ChangedBy h env v t1 (init_capture_loop h.bluez env v.cdata t1)
              (init_capture_loop-SetUp h.bluez env v.cdata t1) (simp (set, away) at e) u g in
          (t1, t2, made, changed)
    ]
