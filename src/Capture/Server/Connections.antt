-- ===== src/Capture/Server/Connections.antt =====
-- src/capture/capture_bluez.c: the descriptors of run_server.
use bdremote_ng.Prelude.{
  ℕ, ◌+◌, ℤ, pos, negsuc, minus_one, eq_ℤ, ltb_ℤ, List, [], ◌∷◌, ◌≡◌, refl, arith, if◌then◌else◌,
}
use bdremote_ng.Sys.{Env, Trace, Event, accept}
use bdremote_ng.Sys.Descriptors.{opened, closed}
use bdremote_ng.Capture.{Callback, Reading, shut_down, disconnected, timed_out, running}
use bdremote_ng.Capture.Server.{
  Meeting, nobody, unreadable, connection, read_known, l2cap_accept, accept_and_close,
  unless_canceled, run_server,
}

-- From `t` to `t'`, `fd` was closed as often as it was accepted.
abbrev pub ClosesAccepted : ℤ → Trace → Trace → Type 0
ClosesAccepted fd t t' = opened fd t' + closed fd t ≡ opened fd t + closed fd t'

ClosesAccepted-trans :
    (fd : ℤ) (a b c : Trace) → ClosesAccepted fd a b → ClosesAccepted fd b c → ClosesAccepted fd a c
ClosesAccepted-trans fd a b c p q = omega (arith, p, q)

-- What l2cap_accept gives is, as a descriptor, what accept gave.
same_descriptor :
    (r : ℤ) (n : ℕ) → eq_ℤ (if ltb_ℤ r (pos 0) then minus_one else r) (pos n) ≡ eq_ℤ r (pos n)
same_descriptor (pos k) n = ground arith
same_descriptor (negsuc k) n = refl

accept_and_close-ClosesAccepted :
    (env : Env) (csk isk : ℤ) (n : ℕ) (t : Trace)
    → ClosesAccepted (pos n) t (accept_and_close env csk isk t)
unfolding accept_and_close l2cap_accept
accept_and_close-ClosesAccepted env csk isk n t =
    let first : Event = record { call = accept csk; result = env.answer t (accept csk) } in
    rw
      (
        same_descriptor (env.answer t (accept csk)) n,
        same_descriptor (env.answer (first ∷ t) (accept isk)) n,
      )
      (omega arith)

after_connection :
    (fd : ℤ) (end : Reading) (later : List Callback × Trace) (t t1 : Trace)
    → ClosesAccepted fd t t1
    → ClosesAccepted fd t1 later.1
    → ClosesAccepted fd t (unless_canceled end later t1).1
unfolding unless_canceled
after_connection fd shut_down later t t1 p q = p
after_connection fd disconnected later t t1 p q = ClosesAccepted-trans fd t t1 later.1 p q
after_connection fd timed_out later t t1 p q = ClosesAccepted-trans fd t t1 later.1 p q
after_connection fd (running n) later t t1 p q = ClosesAccepted-trans fd t t1 later.1 p q

-- run_server, whatever it meets and whatever the calls answer, closes each descriptor as often as
-- accept() gave it.
pub run_server-ClosesAccepted :
    (env : Env) (csk isk timeout : ℤ) (address : List ℕ) (ms : List Meeting) (t : Trace) (n : ℕ)
    → ClosesAccepted (pos n) t (run_server env csk isk timeout address ms t).1
unfolding run_server
run_server-ClosesAccepted env csk isk timeout address [] t n = refl
run_server-ClosesAccepted env csk isk timeout address (nobody ∷ ms) t n =
    run_server-ClosesAccepted env csk isk timeout address ms t n
run_server-ClosesAccepted env csk isk timeout address (unreadable ∷ ms) t n =
    run_server-ClosesAccepted env csk isk timeout address ms t n
run_server-ClosesAccepted env csk isk timeout address (connection peer polls ∷ ms) t n =
    let t1 = accept_and_close env csk isk t in
    after_connection (pos n) (read_known timeout address peer polls).1
      (run_server env csk isk timeout address ms t1) t t1
      (accept_and_close-ClosesAccepted env csk isk n t)
      (run_server-ClosesAccepted env csk isk timeout address ms t1 n)
