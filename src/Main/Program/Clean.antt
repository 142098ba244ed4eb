-- ===== src/Main/Program/Clean.antt =====
-- src/bdremoteng.c: what main leaves at its last line.
use bdremote_ng.Prelude.{ℕ, ◌+◌, pos, minus_one, ◌≡◌, subst, arith, Option, List, [], length}
use bdremote_ng.Text.{CString}
use bdremote_ng.Sys.{Env, Trace}
use bdremote_ng.Sys.Descriptors.{opened, closed}
use bdremote_ng.Logging.{standard_output, set_default_log, set_log_file}
use bdremote_ng.Capture.Server.{Meeting}
use bdremote_ng.Capture.Bluetooth.{capture_loop}
use bdremote_ng.Capture.Bluetooth.Lifecycle.{capture_loop-IsBalanced}
use bdremote_ng.Lirc.{max_clients}
use bdremote_ng.Lirc.Clients.{clients}
use bdremote_ng.Lirc.Server.{Round}
use bdremote_ng.Main.Program.{
  Host, Variables, going, prepare, set_variables, Final, success, after_prepare, main_program,
}
use bdremote_ng.Main.Program.Descriptors.{set_log_file-IsBalanced}
use bdremote_ng.Main.Program.Handed.{
  IsClean, EndsClean, with_log-EndsClean, Handed, set_variables-IsFresh, with_variables-Handed,
}

-- What `prepare` hands over to the rest of main.
prepare-Handed :
    (h : Host) (env : Env) (os : List (ℕ × Option CString)) (n : ℕ) (t : Trace)
    → length h.memory ≡ max_clients
    → Handed h env n t (prepare h env os t)
unfolding prepare
prepare-Handed h env os n t size =
    with_variables-Handed h env n t (set_variables h os) (λ v. set_variables-IsFresh h os size)

main_program-IsClean :
    (h : Host) (env : Env) (os : List (ℕ × Option CString)) (rounds : List Round) (t : Trace)
    (n : ℕ) {z : Final} {v : Variables} {t1 : Trace}
    → Handed h env n t (going v, t1)
    → prepare h env os t ≡ (going v, t1)
    → main_program h env os rounds t ≡ success z
    → IsClean n t v.cdata.sockets z
unfolding main_program after_prepare
main_program-IsClean h env os rounds t n {v} {t1} (fresh, three, b) e end =
    subst (EndsClean n t v.cdata.sockets) (simp e at end) (
      with_log-EndsClean h env n t rounds v (set_log_file env v.config set_default_log t1) fresh
        (omega (arith, b, set_log_file-IsBalanced env n v.config set_default_log t1)))

-- Let main come to its last line, let `v` be its variables when it starts the Bluetooth thread, and
-- let that thread run captureLoop on the capture data in `v`, with any answers of its calls and any
-- visitors. Then there is no client, no device and no log file any more, and main and the thread
-- together have closed every descriptor as often as they opened it: the Bluetooth sockets and
-- connections, the listener, the clients and the device. The array of the table is taken to have
-- its 16 slots.
pub daemon-closes :
    (h : Host) (env bluetooth_env : Env) (os : List (ℕ × Option CString)) (rounds : List Round)
    (visitors : List Meeting) (n : ℕ) {z : Final} {v : Variables} {t1 : Trace}
    → length h.memory ≡ max_clients
    → prepare h env os [] ≡ (going v, t1)
    → main_program h env os rounds [] ≡ success z
    → let t2 = (capture_loop h.bluez bluetooth_env v.cdata visitors []).1 in
      (clients z.variables.ldata ≡ [])
      × (z.event_out_fd ≡ minus_one)
      × (z.stream ≡ standard_output)
      × (opened (pos n) z.trace + opened (pos n) t2 ≡ closed (pos n) z.trace + closed (pos n) t2)
daemon-closes h env bluetooth_env os rounds visitors n {v} {t1} size e end =
    let handed : Handed h env n [] (going v, t1) =
      subst (Handed h env n []) e (prepare-Handed h env os n [] size) in
    let (ctl, csk, isk, three) = handed.1 in
    let (none_left, no_device, no_log, kept) =
      main_program-IsClean h env os rounds [] n handed e end in
    let given_back =
      capture_loop-IsBalanced h.bluez bluetooth_env v.cdata visitors [] ctl csk isk n three in
    (none_left, no_device, no_log, omega (arith, kept, given_back))
