-- ===== src/Lirc/Server.antt =====
-- src/lirc_srv.c: lirc_server and create_listener.
pub mod Shutdown
pub mod Descriptors
use bdremote_ng.Prelude.{
  ℕ, ◌+◌, ◌-◌, ◌%◌, ◌^◌, ℤ, pos, negsuc, minus_one, Bool, true, false, List, [], ◌∷◌, eq_ℤ, suc,
  if◌then◌else◌,
}
use bdremote_ng.Sys.{Env, Trace, perform, socket, set_reuse_address, bind, listen, shutdown, close}
use bdremote_ng.Lirc.{LircData}
use bdremote_ng.Lirc.Socket.{nolinger}
use bdremote_ng.Lirc.Clients.{clients, hang_up, add_client, remove_client}

-- `unsigned short int port = listen_port`
abbrev port_of : ℤ → ℕ
port_of (pos n) = n % 2 ^ 16
port_of (negsuc n) = 2 ^ 16 - 1 - n % 2 ^ 16

-- create_listener, from bind on. The result of listen is not looked at.
unfoldable pub bound : Env → LircData → Trace → ℤ → ℤ × LircData × Trace
bound env d t r =
    if eq_ℤ r minus_one
    then (minus_one, d, (perform env (close d.sockinet) t).1)
    else (pos 0, d, nolinger env d.sockinet (perform env (listen d.sockinet) t).1)

-- create_listener: the result, BDREMOTE_OK or BDREMOTE_FAIL, and the state
unfoldable pub create_listener : Env → LircData → Trace → ℤ × LircData × Trace
unfolding bound
create_listener env d t =
    let (fd, t1) = perform env socket t in
    let d1 = record d { sockinet = fd } in
    if eq_ℤ fd minus_one
    then (minus_one, d1, t1)
    else let (r, t2) =
        perform env (bind fd (port_of d.config.listen_port))
          (perform env (set_reuse_address fd) t1).1 in
      bound env d1 t2 r

-- A round of the loop of lirc_server, in which ppoll reports nothing or the listener, or what the
-- LIRC thread does between two rounds: it drops a client.
pub data Round : Type 0 where
  no_event : Round
  connects : Round
  lirc_drops : ℤ → Round

unfoldable pub server_round : Env → Round → LircData → Trace → LircData × Trace
server_round env no_event d t = (d, t)
server_round env connects d t = add_client env d t
server_round env (lirc_drops fd) d t = remove_client env d fd t

-- the loop, up to the round before __io_canceled is set
unfoldable pub serve : Env → List Round → LircData → Trace → LircData × Trace
serve env [] d t = (d, t)
serve env (r ∷ rs) d t = let (d1, t1) = server_round env r d t in serve env rs d1 t1

-- the loop that closes the sockets of the clients
unfoldable pub hang_up_all : Env → List ℤ → Trace → Trace
hang_up_all env [] t = t
hang_up_all env (fd ∷ fds) t = hang_up_all env fds (hang_up env fd t)

-- what lirc_server does after its loop
unfoldable pub shut : Env → LircData → Trace → LircData × Trace
shut env d t = (
  record d { clin = 0; sockinet = minus_one },
  hang_up env d.sockinet (hang_up_all env (clients d) t),
)

unfoldable pub served : Env → List Round → ℤ × LircData × Trace → ℤ × LircData × Trace
served env rounds (result, d, t) =
    if eq_ℤ result minus_one
    then (minus_one, d, t)
    else let (d1, t1) = serve env rounds d t in let (d2, t2) = shut env d1 t1 in (pos 0, d2, t2)

-- lirc_server
unfoldable pub lirc_server : Env → List Round → LircData → Trace → ℤ × LircData × Trace
unfolding served
lirc_server env rounds d t = served env rounds (create_listener env d t)
