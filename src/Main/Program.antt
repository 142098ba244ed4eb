-- ===== src/Main/Program.antt =====
-- src/bdremoteng.c: main, after the command line, as the main thread runs it. What the two threads
-- that it starts do meanwhile is not in its trace; the environment answers from anything.
pub mod Descriptors
pub mod Identity
pub mod Handed
pub mod Clean
use bdremote_ng.Prelude.{
  ℕ, ℤ, pos, minus_one, eq_ℤ, Bool, true, false, ◌==◌, Option, none, some, List, [], ◌∷◌,
  if◌then◌else◌, Outcome, ok, stop, exited, ◌>>=◌,
}
use bdremote_ng.Text.{CString}
use bdremote_ng.Sys.{
  Env, Trace, perform, bluetooth_thread, lirc_thread, sigterm, sigint, sighup, sigchld, sigpipe,
  sig_term, sig_hup, ignored, getuid, geteuid, daemon, nice, sigaction, pthread_create,
  pthread_kill, pthread_join, control_socket,
}
use bdremote_ng.Config.{Configuration, user_and_group_set, destroy_config}
use bdremote_ng.Main.Options.{configure}
use bdremote_ng.Logging.{Stream, set_default_log, set_log_file, close_log_file}
use bdremote_ng.Privileges.{change_uid_and_gid}
use bdremote_ng.EventOut.{Device, event_out_init, event_out_destroy}
use bdremote_ng.Capture.{CaptureData, init_capture_data, destroy_capture_data}
use bdremote_ng.Capture.Setup.{cleared}
use bdremote_ng.Capture.Bluetooth.{Bluez, init_capture_loop}
use bdremote_ng.Lirc.{LircData, init_lirc_data, destroy_lirc_data}
use bdremote_ng.Lirc.Server.{Round, lirc_server}

-- What the program finds: BlueZ, the users and groups, sizeof(struct uinput_user_dev), and the
-- memory of `ldata.clis` before initLircData.
pub record Host : Type 0 where
  pub bluez : Bluez
  pub getpwnam : CString → Option ℕ
  pub getgrnam : CString → Option ℕ
  pub device_size : ℕ
  pub memory : List ℤ

-- the variables `config`, `ldata` and `cdata` of main
pub record Variables : Type 0 where
  pub config : Configuration
  pub ldata : LircData
  pub cdata : CaptureData

-- A part of main goes on with the next one, or main ends: it returns (ok) or the process stops.
pub data Stage (A : Type 0) : Type 0 where
  going : A → Stage A
  ended : Outcome ℤ → Stage A

-- up to InitCaptureData
unfoldable pub set_variables : Host → List (ℕ × Option CString) → Outcome Variables
set_variables h os = configure os >>= (λ c.
    init_capture_data cleared c
    >>= (λ cd. ok (record { config = c; ldata = init_lirc_data h.memory c; cdata = cd })))

-- `detach` and the call of nice
unfoldable pub detach : Env → Configuration → Trace → Bool × Trace
detach env c t =
    let (r, t1) = perform env daemon t in
    if c.detach
    then (if eq_ℤ r (pos 0) then (true, (perform env nice t1).1) else (false, t1))
    else (true, (perform env nice t).1)

-- the argument of a call that is only made when it is not NULL
text : Option CString → CString
text none = []
text (some s) = s

-- the test for root, then changeUIDAndGID
unfoldable pub change_identity : Host → Env → Configuration → Trace → ℤ × Trace
unfolding text
change_identity h env c t =
    let (uid, t1) = perform env getuid t in
    let (euid, t2) = perform env geteuid t1 in
    if eq_ℤ uid (pos 0)
    then (if eq_ℤ euid (pos 0)
        then change_uid_and_gid h.getpwnam h.getgrnam env (text c.user) (text c.group) t2
        else (minus_one, t2))
    else (minus_one, t1)

-- `if (userAndGroupSet(&config) == 1)`
unfoldable pub drop_privileges : Host → Env → Variables → Trace → Stage Variables × Trace
drop_privileges h env v t =
    let (r, t1) = change_identity h env v.config t in
    if user_and_group_set v.config == 1
    then (if eq_ℤ r minus_one then (ended (ok minus_one), t1) else (going v, t1))
    else (going v, t)

-- from InitcaptureLoop on. Its only exit follows the control socket that it does not get.
unfoldable pub with_sockets :
    Host → Env → Variables → Trace → Outcome (ℤ × CaptureData × Trace) → Stage Variables × Trace
with_sockets h env v t (stop f) = (ended (stop f), (perform env control_socket t).1)
with_sockets h env v t (ok (ret, cd, t1)) =
    if eq_ℤ ret minus_one
    then (ended (ok minus_one), t1)
    else drop_privileges h env (record v { cdata = cd }) t1

unfoldable pub with_variables : Host → Env → Outcome Variables → Trace → Stage Variables × Trace
with_variables h env (stop f) t = (ended (stop f), t)
with_variables h env (ok v) t =
    let (alone, t1) = detach env v.config t in
    if alone
    then with_sockets h env v t1 (init_capture_loop h.bluez env v.cdata t1)
    else (ended (stop (exited 1)), t1)

-- main up to the log file
unfoldable pub prepare : Host → Env → List (ℕ × Option CString) → Trace → Stage Variables × Trace
prepare h env os t = with_variables h env (set_variables h os) t

-- the calls of sigaction
unfoldable pub set_handlers : Env → Trace → Trace
set_handlers env t =
    let t1 = (perform env (sigaction sigterm sig_term) t).1 in
    let t2 = (perform env (sigaction sigint sig_term) t1).1 in
    let t3 = (perform env (sigaction sighup sig_hup) t2).1 in
    let t4 = (perform env (sigaction sigchld ignored) t3).1 in
    (perform env (sigaction sigpipe ignored) t4).1

-- `event_out_fd` is -1 at first
unfoldable pub start_device : Host → Env → Configuration → Trace → Device
start_device h env c t =
    if c.event_out
    then event_out_init env h.device_size t
    else record { event_out_fd = minus_one; trace = t }

-- the end of the threads
unfoldable pub join_threads : Env → Trace → Trace
join_threads env t =
    let t1 = (perform env (pthread_kill bluetooth_thread sigterm) t).1 in
    let t2 = (perform env (pthread_join bluetooth_thread) t1).1 in
    (perform env (pthread_join lirc_thread) t2).1

-- What main leaves: its variables, the device, the log and the calls that it made.
pub record Final : Type 0 where
  pub variables : Variables
  pub event_out_fd : ℤ
  pub stream : Stream
  pub trace : Trace

-- How main ends: early, with a result or a fault, or by its last line, with EXIT_SUCCESS.
pub data End : Type 0 where
  early : Outcome ℤ → Trace → End
  success : Final → End

-- from destroyLircData on
unfoldable pub clean_up : Env → Variables → Stream → ℤ → Trace → Outcome (Unit {0}) → End
clean_up env v stream fd t (stop f) = early (stop f) t
clean_up env v stream fd t (ok _) =
    let d = event_out_destroy env (record { event_out_fd = fd; trace = t }) in
    let (stream1, t1) = close_log_file env stream d.trace in
    success (record {
      variables = record v {
        config = destroy_config v.config;
        cdata = destroy_capture_data v.cdata;
      };
      event_out_fd = d.event_out_fd;
      stream = stream1;
      trace = t1;
    })

-- main once the Bluetooth thread runs, with the rounds of lirc_server
unfoldable pub run_threads : Host → Env → List Round → Variables → Stream → Trace → End
run_threads h env rounds v stream t =
    let d = start_device h env v.config (set_handlers env t) in
    let t1 = (perform env (pthread_create lirc_thread) d.trace).1 in
    let (r, ld, t2) = lirc_server env rounds v.ldata t1 in
    clean_up env (record v { ldata = ld }) stream d.event_out_fd (join_threads env t2)
      (destroy_lirc_data ld)

-- from the log file on
unfoldable pub with_log : Host → Env → List Round → Variables → ℤ × Stream × Trace → End
with_log h env rounds v (r, stream, t) =
    let (made, t1) = perform env (pthread_create bluetooth_thread) t in
    if eq_ℤ r minus_one
    then early (stop (exited 0)) t
    else if eq_ℤ made (pos 0)
    then run_threads h env rounds v stream t1
    else early (stop (exited 1)) (close_log_file env stream t1).1

unfoldable pub after_prepare : Host → Env → List Round → Stage Variables × Trace → End
after_prepare h env rounds (ended r, t) = early r t
after_prepare h env rounds (going v, t) =
    with_log h env rounds v (set_log_file env v.config set_default_log t)

-- main
unfoldable pub main_program : Host → Env → List (ℕ × Option CString) → List Round → Trace → End
main_program h env os rounds t = after_prepare h env rounds (prepare h env os t)
