-- ===== src/Lirc/Clients.antt =====
-- src/lirc_srv.c: the table of connected clients, add_client and remove_client. The table is changed
-- under dataMutex; what a function does between its calls of the mutex is one piece here.
pub mod Table
pub mod Bounds
pub mod Descriptors
use bdremote_ng.Prelude.{
  ℕ, zero, suc, ◌+◌, ◌-◌, ℤ, pos, negsuc, minus_one, Bool, true, false, ◌||◌, Option, none, some,
  List, [], ◌∷◌, get_or, set, take, eq_ℤ, ltb_ℤ, leb, not, if◌then◌else◌,
}
use bdremote_ng.Sys.{Env, Trace, perform, accept, shutdown, close, get_flags, set_non_blocking}
use bdremote_ng.Lirc.{LircData, max_clients}
use bdremote_ng.Lirc.Socket.{nolinger}

-- FD_SETSIZE of the C library
abbrev pub fd_setsize : ℕ
fd_setsize = 1024

-- the clients, in the order of the table
abbrev pub clients : LircData → List ℤ
clients d = take d.clin d.clis

-- `fd >= FD_SETSIZE || clin >= MAX_CLIENTS`
abbrev pub is_rejected : ℤ → ℕ → Bool
is_rejected fd clin = not (ltb_ℤ fd (pos fd_setsize)) || leb max_clients clin

-- `shutdown(fd,2); close(fd);`
abbrev pub hang_up : Env → ℤ → Trace → Trace
hang_up env fd t = (perform env (close fd) (perform env (shutdown fd) t).1).1

-- fcntl, to set O_NONBLOCK beside the flags that are set
unfoldable pub set_flags : Env → ℤ → Trace → Trace
set_flags env fd t =
    let (flags, t') = perform env (get_flags fd) t in
    if eq_ℤ flags minus_one then t' else (perform env (set_non_blocking fd flags) t').1

-- add_client. A failed accept() is only logged.
unfoldable pub add_client : Env → LircData → Trace → LircData × Trace
unfolding set_flags
add_client env d t =
    let (fd, t1) = perform env (accept d.sockinet) t in
    if is_rejected fd d.clin then (d, hang_up env fd t1) else (
      record d { clis = set d.clis d.clin fd; clin = d.clin + 1 },
      set_flags env fd (nolinger env fd t1),
    )

-- The search of remove_client: the first index from `i` on, of `rounds`, that holds `fd`.
unfoldable pub find_client : ℤ → List ℤ → ℕ → ℕ → Option ℕ
find_client fd clis i zero = none
find_client fd clis i (suc rounds) =
    if eq_ℤ (get_or clis i minus_one) fd then some i else find_client fd clis (i + 1) rounds

-- `for(;i<clin;i++) clis[i]=clis[i+1];` with `rounds` left. Table has the proof that `i+1` is inside.
unfoldable pub shift_down : List ℤ → ℕ → ℕ → List ℤ
shift_down clis i zero = clis
shift_down clis i (suc rounds) =
    shift_down (set clis i (get_or clis (i + 1) minus_one)) (i + 1) rounds

-- what remove_client does about the index that it finds
unfoldable pub remove_found : Env → LircData → Trace → Option ℕ → LircData × Trace
remove_found env d t none = (d, t)
remove_found env d t (some i) = (
  record d { clin = d.clin - 1; clis = shift_down d.clis i (d.clin - 1 - i) },
  hang_up env (get_or d.clis i minus_one) t,
)

-- remove_client
unfoldable pub remove_client : Env → LircData → ℤ → Trace → LircData × Trace
unfolding remove_found
remove_client env d fd t = remove_found env d t (find_client fd d.clis 0 d.clin)
