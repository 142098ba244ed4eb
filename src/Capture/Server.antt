-- ===== src/Capture/Server.antt =====
-- src/capture/capture_bluez.c: run_server, l2cap_accept and l2cap_checkSource. The Bluetooth address
-- of the remote is given by its bytes; str2ba, ppoll and getpeername are the libraries', and what
-- they give is an argument. sleep is left out.
pub mod Strangers
pub mod Connections
use bdremote_ng.Prelude.{
  ℕ, ℤ, pos, minus_one, eq_ℤ, ltb_ℤ, Bool, true, false, ◌&&◌, Option, none, some, List, [], ◌∷◌,
  ◌++◌, ◌==◌, if◌then◌else◌,
}
use bdremote_ng.Sys.{Env, Trace, perform, accept, close}
use bdremote_ng.Capture.{
  Callback, Poll, Reading, shut_down, disconnected, timed_out, running, read_from_socket,
}

-- `memcmp(..) == 0` of two addresses
abbrev pub same_bytes : List ℕ → List ℕ → Bool
same_bytes [] [] = true
same_bytes [] (y ∷ ys) = false
same_bytes (x ∷ xs) [] = false
same_bytes (x ∷ xs) (y ∷ ys) = let rest = same_bytes xs ys in (x == y) && rest

-- l2cap_checkSource, of the address that getpeername gives, if it succeeds
unfoldable pub l2cap_check_source : Option (List ℕ) → List ℕ → ℤ
l2cap_check_source none address = minus_one
l2cap_check_source (some peer) address = if same_bytes peer address then pos 1 else pos 0

-- l2cap_accept, without the address that it can store
unfoldable pub l2cap_accept : Env → ℤ → Trace → ℤ × Trace
l2cap_accept env sk t =
    let (nsk, t1) = perform env (accept sk) t in (if ltb_ℤ nsk (pos 0) then minus_one else nsk, t1)

-- A round of the loop: ppoll reports nothing, or no socket that can be read, or a connection, with
-- the address of its peer and what its socket then gives.
pub data Meeting : Type 0 where
  nobody : Meeting
  unreadable : Meeting
  connection : (peer : Option (List ℕ)) → (polls : List Poll) → Meeting

-- `if (l2cap_checkSource(..))`: what is read from the connection, and how that ends
unfoldable pub read_known : ℤ → List ℕ → Option (List ℕ) → List Poll → List Callback × Reading
read_known timeout address peer polls =
    if eq_ℤ (l2cap_check_source peer address) (pos 0)
    then ([], disconnected)
    else read_from_socket timeout 0 polls

-- the calls of one connection
unfoldable pub accept_and_close : Env → (csk isk : ℤ) → Trace → Trace
accept_and_close env csk isk t =
    let (ncsk, t1) = l2cap_accept env csk t in
    let (nisk, t2) = l2cap_accept env isk t1 in
    (perform env (close ncsk) (perform env (close nisk) t2).1).1

-- Reading ends with 0 when __io_canceled is set, and then the loop ends too. A connection whose polls
-- run out has ended.
unless_canceled : Reading → List Callback × Trace → Trace → List Callback × Trace
unless_canceled shut_down later t = ([], t)
unless_canceled disconnected later t = later
unless_canceled timed_out later t = later
unless_canceled (running n) later t = later

-- run_server, from its loop on: the callbacks that it calls, and its calls
unfoldable pub run_server :
    Env
    → (csk isk : ℤ) → (timeout : ℤ) → (address : List ℕ) → List Meeting
    → Trace
    → List Callback × Trace
unfolding unless_canceled
run_server env csk isk timeout address [] t = ([], t)
run_server env csk isk timeout address (nobody ∷ ms) t = run_server env csk isk timeout address ms t
run_server env csk isk timeout address (unreadable ∷ ms) t =
    run_server env csk isk timeout address ms t
run_server env csk isk timeout address (connection peer polls ∷ ms) t =
    let (told, end) = read_known timeout address peer polls in
    let t1 = accept_and_close env csk isk t in
    let later = run_server env csk isk timeout address ms t1 in
    let (more, t2) = unless_canceled end later t1 in (told ++ more, t2)
