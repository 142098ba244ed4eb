-- ===== src/Capture/Server/Strangers.antt =====
-- src/capture/capture_bluez.c: whom run_server listens to.
use bdremote_ng.Prelude.{
  ℕ, ℤ, Bool, true, false, not, Option, none, some, List, [], ◌∷◌, ◌++◌, ◌≡◌, refl, ap,
  if◌then◌else◌, Bool-cases, inl, inr, arith,
}
use bdremote_ng.Sys.{Env, Trace}
use bdremote_ng.Capture.{Callback, Poll, Reading, shut_down, disconnected, timed_out, running}
use bdremote_ng.Capture.Server.{
  same_bytes, l2cap_check_source, Meeting, nobody, unreadable, connection, read_known,
  accept_and_close, unless_canceled, run_server,
}

-- The meetings without the connections whose peer is known to be another device, and with each
-- other connection as one of the device itself.
abbrev pub is_stranger : List ℕ → Option (List ℕ) → Bool
is_stranger address none = false
is_stranger address (some peer) = not (same_bytes peer address)

abbrev pub without_strangers : List ℕ → List Meeting → List Meeting
without_strangers address [] = []
without_strangers address (nobody ∷ ms) = nobody ∷ without_strangers address ms
without_strangers address (unreadable ∷ ms) = unreadable ∷ without_strangers address ms
without_strangers address (connection peer polls ∷ ms) =
    if is_stranger address peer
    then without_strangers address ms
    else connection (some address) polls ∷ without_strangers address ms

told_with :
    (end : Reading) (l l' : List Callback × Trace) (t t' : Trace)
    → l.0 ≡ l'.0
    → (unless_canceled end l t).0 ≡ (unless_canceled end l' t').0
unfolding unless_canceled
told_with shut_down l l' t t' e = refl
told_with disconnected l l' t t' e = e
told_with timed_out l l' t t' e = e
told_with (running n) l l' t t' e = e

stranger-unread :
    (timeout : ℤ) (address : List ℕ) (peer : Option (List ℕ)) (polls : List Poll)
    → is_stranger address peer ≡ true
    → read_known timeout address peer polls ≡ ([], disconnected)
unfolding read_known l2cap_check_source
stranger-unread timeout address none polls h = cc
stranger-unread timeout address (some peer) polls h =
    let e : same_bytes peer address ≡ false = ground arith in simp e

same_bytes_self : (xs : List ℕ) → same_bytes xs xs ≡ true
same_bytes_self [] = refl
same_bytes_self (x ∷ xs) = let e = same_bytes_self xs in ground arith

known-read :
    (timeout : ℤ) (address : List ℕ) (peer : Option (List ℕ)) (polls : List Poll)
    → is_stranger address peer ≡ false
    → read_known timeout address peer polls ≡ read_known timeout address (some address) polls
unfolding read_known l2cap_check_source
known-read timeout address none polls h = simp (same_bytes_self address)
known-read timeout address (some peer) polls h =
    let e : same_bytes peer address ≡ true = ground arith in simp (e, same_bytes_self address)

-- What run_server tells the daemon is the same without the connections of strangers, whose peer has
-- another address than the remote, and with each other connection as one of the remote: a peer whose
-- address getpeername does not give counts as the remote.
pub run_server-without_strangers :
    (env : Env) (csk isk timeout : ℤ) (address : List ℕ) (ms : List Meeting) (t t' : Trace)
    → (run_server env csk isk timeout address ms t).0
      ≡ (run_server env csk isk timeout address (without_strangers address ms) t').0
unfolding run_server
run_server-without_strangers env csk isk timeout address [] t t' = refl
run_server-without_strangers env csk isk timeout address (nobody ∷ ms) t t' =
    run_server-without_strangers env csk isk timeout address ms t t'
run_server-without_strangers env csk isk timeout address (unreadable ∷ ms) t t' =
    run_server-without_strangers env csk isk timeout address ms t t'
run_server-without_strangers env csk isk timeout address (connection peer polls ∷ ms) t t' =
    let t1 = accept_and_close env csk isk t in
    let t1' = accept_and_close env csk isk t' in
    elim (Bool-cases (is_stranger address peer)) [
      | inl stranger ↦
          rw (stranger, stranger-unread timeout address peer polls stranger)
            (run_server-without_strangers env csk isk timeout address ms t1 t')
      | inr known ↦
          rw (known, known-read timeout address peer polls known)
            (ap (λ more. (read_known timeout address (some address) polls).0 ++ more)
              (told_with (read_known timeout address (some address) polls).1
                (run_server env csk isk timeout address ms t1)
                (run_server env csk isk timeout address (without_strangers address ms) t1') t1 t1'
                (run_server-without_strangers env csk isk timeout address ms t1 t1')))
    ]
