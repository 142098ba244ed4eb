-- ===== src/Main/Program/Handed.antt =====
-- src/bdremoteng.c: what each part of main hands over to the next.
use bdremote_ng.Prelude.{
  ℕ, ℤ, pos, minus_one, eq_ℤ, ◌==◌, ◌≡◌, refl, ap, subst, arith, Option, List, [], ◌∷◌, take,
  length, Bool-cases, inl, inr, Outcome, ok, stop, >>=-eq-ok, ok-injective,
}
use bdremote_ng.Text.{CString}
use bdremote_ng.Sys.{Env, Trace, perform, bluetooth_thread, lirc_thread, pthread_create}
use bdremote_ng.Sys.Descriptors.{IsBalanced, IsBalanced-trans}
use bdremote_ng.Config.{user_and_group_set}
use bdremote_ng.Logging.{Stream, standard_output, close_log_file, null, file}
use bdremote_ng.EventOut.{Device, event_out_destroy}
use bdremote_ng.EventOut.Descriptor.{holds, destroy-IsBalanced, event_out_destroy-gone}
use bdremote_ng.Capture.{CaptureData, init_capture_data}
use bdremote_ng.Capture.Setup.{cleared}
use bdremote_ng.Capture.Bluetooth.{init_capture_loop}
use bdremote_ng.Capture.Bluetooth.Sockets.{
  SetUp, ready, failed, leaked, no_bluetooth, no_room, init_capture_loop-SetUp,
}
use bdremote_ng.Lirc.{LircData, init_lirc_data, destroy_lirc_data, max_clients}
use bdremote_ng.Lirc.Clients.{clients}
use bdremote_ng.Lirc.Clients.Bounds.{IsTable, init-IsTable}
use bdremote_ng.Lirc.Server.{Round, lirc_server}
use bdremote_ng.Lirc.Server.Descriptors.{lirc_server-closes}
use bdremote_ng.Main.Options.{configure}
use bdremote_ng.Main.Program.{
  Host, Variables, Stage, going, ended, detach, with_sockets, with_variables, drop_privileges,
  change_identity, set_variables, Final, End, early, success, clean_up, run_threads, with_log,
  start_device, set_handlers, join_threads,
}
use bdremote_ng.Main.Program.Descriptors.{
  detach-IsBalanced, change_identity-IsBalanced, close_log_file-IsBalanced, start_device-IsBalanced,
}

-- At its last line main has no client, no device and no log file, and of the descriptors that it
-- opened since the trace `t0` it has left open those in `held`.
abbrev pub IsClean : ℕ → Trace → List ℤ → Final → Type 0
IsClean n t0 held z =
    (clients z.variables.ldata ≡ [])
    × (z.event_out_fd ≡ minus_one)
    × (z.stream ≡ standard_output)
    × IsBalanced (pos n) [] t0 held z.trace

abbrev pub EndsClean : ℕ → Trace → List ℤ → End → Type 0
EndsClean n t0 held (early r t) = Unit
EndsClean n t0 held (success z) = IsClean n t0 held z

-- initLircData gives a table without clients.
pub record IsFresh (d : LircData) : Type 0 where
  pub table : IsTable d
  pub empty : d.clin ≡ 0

-- the three sockets of captureData
abbrev pub AreSockets : List ℤ → Type 0
AreSockets fds = (ctl : ℤ) × (csk : ℤ) × (isk : ℤ) × (fds ≡ ctl ∷ csk ∷ isk ∷ [])

no_clients : (d : LircData) {u : Unit {0}} → destroy_lirc_data d ≡ ok u → clients d ≡ []
unfolding destroy_lirc_data
no_clients d e = elim (Bool-cases (d.clin == 0)) [
  | inl zero ↦ let left : d.clin ≡ 0 = ground arith in ap (λ k. take k d.clis) left
  | inr more ↦ cc (simp more at e)
]

close_log_file-closed :
    (env : Env) (stream : Stream) (t : Trace) → (close_log_file env stream t).0 ≡ standard_output
unfolding close_log_file
close_log_file-closed env null t = refl
close_log_file-closed env standard_output t = refl
close_log_file-closed env (file f) t = refl

module _ (h : Host) (env : Env) (n : ℕ) (t0 : Trace) where
  clean_up-EndsClean :
      (v : Variables) (stream : Stream) (fd : ℤ) (t : Trace) (o : Outcome (Unit {0}))
      → destroy_lirc_data v.ldata ≡ o
      → IsBalanced (pos n) [] t0 (fd ∷ v.cdata.sockets) t
      → EndsClean n t0 v.cdata.sockets (clean_up env v stream fd t o)
  unfolding clean_up
  clean_up-EndsClean v stream fd t (stop f) e b = tt
  clean_up-EndsClean v stream fd t (ok u) e b =
      let d : Device = record { event_out_fd = fd; trace = t } in
      let d1 = event_out_destroy env d in
      (
        no_clients v.ldata e,
        event_out_destroy-gone env d,
        close_log_file-closed env stream d1.trace,
        omega (
          arith,
          b,
          destroy-IsBalanced env (pos n) (λ e. cc) d,
          ap (λ g. holds (pos n) g) (event_out_destroy-gone env d),
          close_log_file-IsBalanced env n stream d1.trace,
        ),
      )

  run_threads-EndsClean :
      (rounds : List Round) (v : Variables) (stream : Stream) (t : Trace)
      → IsFresh v.ldata
      → IsBalanced (pos n) [] t0 v.cdata.sockets t
      → EndsClean n t0 v.cdata.sockets (run_threads h env rounds v stream t)
  unfolding run_threads set_handlers join_threads
  run_threads-EndsClean rounds v stream t fresh b =
      let d = start_device h env v.config (set_handlers env t) in
      let t1 = (perform env (pthread_create lirc_thread) d.trace).1 in
      let (r, ld, t2) = lirc_server env rounds v.ldata t1 in
      clean_up-EndsClean (record v { ldata = ld }) stream d.event_out_fd (join_threads env t2)
        (destroy_lirc_data ld) refl
        (omega (
          arith,
          b,
          start_device-IsBalanced env n h v.config (set_handlers env t),
          lirc_server-closes env rounds v.ldata t1 n fresh.table fresh.empty,
        ))

  pub with_log-EndsClean :
      (rounds : List Round) (v : Variables) (r : ℤ × Stream × Trace)
      → IsFresh v.ldata
      → IsBalanced (pos n) [] t0 v.cdata.sockets r.2
      → EndsClean n t0 v.cdata.sockets (with_log h env rounds v r)
  unfolding with_log
  with_log-EndsClean rounds v (r, stream, t) fresh b =
      let (made, t1) = perform env (pthread_create bluetooth_thread) t in
      elim (Bool-cases (eq_ℤ r minus_one)) [
        | inl no_log ↦ simp no_log tt
        | inr logs ↦ elim (Bool-cases (eq_ℤ made (pos 0))) [
          | inr no_thread ↦ simp (logs, no_thread) tt
          | inl running ↦
              simp (logs, running)
                (run_threads-EndsClean rounds v stream t1 fresh (omega (arith, b)))
        ]
      ]

  -- What `prepare` hands over.
  abbrev pub Handed : Stage Variables × Trace → Type 0
  Handed (ended r, t) = Unit
  Handed (going v, t) =
      IsFresh v.ldata × AreSockets v.cdata.sockets × IsBalanced (pos n) [] t0 v.cdata.sockets t

  drop_privileges-Handed :
      (v : Variables) (t : Trace)
      → IsFresh v.ldata
      → AreSockets v.cdata.sockets
      → IsBalanced (pos n) [] t0 v.cdata.sockets t
      → Handed (drop_privileges h env v t)
  unfolding drop_privileges
  drop_privileges-Handed v t fresh three b =
      let (r, t1) = change_identity h env v.config t in
      let changed = change_identity-IsBalanced env n h v.config t in
      elim (Bool-cases (user_and_group_set v.config == 1)) [
        | inr no_names ↦ simp no_names (fresh, three, b)
        | inl named ↦ elim (Bool-cases (eq_ℤ r minus_one)) [
          | inl refused ↦ simp (named, refused) tt
          | inr done ↦ simp (named, done) (fresh, three, omega (arith, b, changed))
        ]
      ]

  with_sockets-Handed :
      (v : Variables) (t : Trace) (o : Outcome (ℤ × CaptureData × Trace))
      → IsFresh v.ldata
      → IsBalanced (pos n) [] t0 [] t
      → SetUp h.bluez env t o
      → Handed (with_sockets h env v t o)
  unfolding with_sockets
  with_sockets-Handed v t o fresh b (ready {cd} {t' = t1} ctl csk isk e b1) =
      drop_privileges-Handed (record v { cdata = cd }) t1 fresh (ctl, csk, isk, e)
        (IsBalanced-trans (pos n) [] [] cd.sockets t0 t t1 b (b1 n))
  with_sockets-Handed v t o fresh b (failed b1) = tt
  with_sockets-Handed v t o fresh b (leaked ctl why b1) = tt
  with_sockets-Handed v t o fresh b no_bluetooth = tt
  with_sockets-Handed v t o fresh b (no_room full) = tt

pub set_variables-IsFresh :
    (h : Host) (os : List (ℕ × Option CString)) {v : Variables}
    → length h.memory ≡ max_clients
    → set_variables h os ≡ ok v
    → IsFresh v.ldata
unfolding set_variables init_lirc_data
set_variables-IsFresh h os {v} size e =
    let (c, e1, e2) = >>=-eq-ok (configure os) _ e in
    let (cd, e3, e4) = >>=-eq-ok (init_capture_data cleared c) _ e2 in
    let same : init_lirc_data h.memory c ≡ v.ldata =
      ap (λ (w : Variables). w.ldata) (ok-injective e4) in
    subst IsFresh same (record { table = init-IsTable h.memory c size; empty = refl })

pub with_variables-Handed :
    (h : Host) (env : Env) (n : ℕ) (t0 : Trace) (o : Outcome Variables)
    → ((v : Variables) → o ≡ ok v → IsFresh v.ldata)
    → Handed h env n t0 (with_variables h env o t0)
unfolding with_variables
with_variables-Handed h env n t0 (stop f) fresh = tt
with_variables-Handed h env n t0 (ok v) fresh =
    let (alone, t1) = detach env v.config t0 in
    elim (Bool-cases alone) [
      | inr stays ↦ simp stays tt
      | inl away ↦ simp away (
          with_sockets-Handed h env n t0 v t1 (init_capture_loop h.bluez env v.cdata t1)
            (fresh v refl) (detach-IsBalanced env n v.config t0)
            (init_capture_loop-SetUp h.bluez env v.cdata t1))
    ]
