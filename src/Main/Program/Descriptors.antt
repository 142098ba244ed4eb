-- ===== src/Main/Program/Descriptors.antt =====
-- src/bdremoteng.c: what the parts of main open and close.
use bdremote_ng.Prelude.{ℕ, pos, eq_ℤ, refl, arith, [], ◌∷◌, Bool-cases, inl, inr}
use bdremote_ng.Sys.{Env, Trace, perform, getuid, geteuid, daemon, fopen}
use bdremote_ng.Sys.Descriptors.{IsBalanced}
use bdremote_ng.Config.{Configuration}
use bdremote_ng.Logging.{Stream, standard_output, set_log_file, close_log_file, null, file}
use bdremote_ng.Privileges.Dropped.{change_uid_and_gid-IsBalanced}
use bdremote_ng.EventOut.Descriptor.{init-IsBalanced}
use bdremote_ng.Main.Program.{Host, detach, change_identity, text, start_device}

module _ (env : Env) (n : ℕ) where
  pub detach-IsBalanced :
      (c : Configuration) (t : Trace) → IsBalanced (pos n) [] t [] (detach env c t).1
  unfolding detach
  detach-IsBalanced c t = elim (Bool-cases c.detach) [
    | inr stays ↦ simp stays (omega arith)
    | inl leaves ↦ elim (Bool-cases (eq_ℤ (env.answer t daemon) (pos 0))) [
      | inl away ↦ simp (leaves, away) (omega arith)
      | inr refused ↦ simp (leaves, refused) (omega arith)
    ]
  ]

  pub change_identity-IsBalanced :
      (h : Host) (c : Configuration) (t : Trace)
      → IsBalanced (pos n) [] t [] (change_identity h env c t).1
  unfolding change_identity
  change_identity-IsBalanced h c t =
      let (uid, t1) = perform env getuid t in
      let (euid, t2) = perform env geteuid t1 in
      elim (Bool-cases (eq_ℤ uid (pos 0))) [
        | inr not_root ↦ simp not_root (omega arith)
        | inl root ↦ elim (Bool-cases (eq_ℤ euid (pos 0))) [
          | inr not_root ↦ simp (root, not_root) (omega arith)
          | inl both ↦
              simp (root, both)
                (omega (
                  arith,
                  change_uid_and_gid-IsBalanced h.getpwnam h.getgrnam env (text c.user)
                      (text c.group) t2 n,
                ))
        ]
      ]

  pub set_log_file-IsBalanced :
      (c : Configuration) (stream : Stream) (t : Trace)
      → IsBalanced (pos n) [] t [] (set_log_file env c stream t).2
  unfolding set_log_file
  set_log_file-IsBalanced c stream t = elim (Bool-cases c.log_filename_set) [
    | inr unset ↦ simp unset
    | inl set ↦ elim (Bool-cases (eq_ℤ (env.answer t (fopen c.log_filename)) (pos 0))) [
      | inl refused ↦ simp (set, refused) (omega arith)
      | inr given ↦ simp (set, given) (omega arith)
    ]
  ]

  pub close_log_file-IsBalanced :
      (stream : Stream) (t : Trace) → IsBalanced (pos n) [] t [] (close_log_file env stream t).1
  unfolding close_log_file
  close_log_file-IsBalanced null t = omega arith
  close_log_file-IsBalanced standard_output t = refl
  close_log_file-IsBalanced (file f) t = omega arith

  pub start_device-IsBalanced :
      (h : Host) (c : Configuration) (t : Trace)
      → let d = start_device h env c t in IsBalanced (pos n) [] t (d.event_out_fd ∷ []) d.trace
  unfolding start_device
  start_device-IsBalanced h c t = elim (Bool-cases c.event_out) [
    | inr off ↦ simp off (omega arith)
    | inl on ↦ simp on (omega (arith, init-IsBalanced env (pos n) (λ e. cc) h.device_size t))
  ]
