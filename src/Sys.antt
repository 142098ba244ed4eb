-- ===== src/Sys.antt =====
-- The operating system as the program sees it: the calls that the modelled functions make, with the
-- arguments that matter, and an environment that answers them. The environment may answer anything,
-- from the whole history of calls; what the program relies on is a named hypothesis of a theorem.
pub mod Delivery
pub mod Descriptors
use bdremote_ng.Prelude.{ℕ, ◌≤◌, ◌≡◌, ℤ, pos, Option, List, [], ◌∷◌, length}
use bdremote_ng.Text.{CString}

-- The threads that main starts, the signals that it sets a handler for, and the handlers.
pub data Thread : Type 0 where
  bluetooth_thread : Thread
  lirc_thread : Thread

pub data Signal : Type 0 where
  sigterm : Signal
  sigint : Signal
  sighup : Signal
  sigchld : Signal
  sigpipe : Signal

pub data Handler : Type 0 where
  sig_term : Handler
  sig_hup : Handler
  ignored : Handler

pub data Call : Type 0 where
  -- sockets
  write : ℤ → List ℕ → Call
  shutdown : ℤ → Call
  close : ℤ → Call
  accept : ℤ → Call
  socket : Call
  set_reuse_address : ℤ → Call
  bind : ℤ → ℕ → Call
  listen : ℤ → Call
  set_no_linger : ℤ → Call
  get_flags : ℤ → Call
  set_non_blocking : ℤ → ℤ → Call
  -- Bluetooth: the sockets, and the requests on the control socket and on an adapter
  control_socket : Call
  hidp_socket : Call
  l2cap_socket : Call
  bind_l2cap : ℤ → List ℕ → ℕ → Call
  set_link_mode : ℤ → Call
  set_l2cap_options : ℤ → Call
  get_device_list : ℤ → Call
  get_device_info : ℤ → ℕ → Call
  open_adapter : ℕ → Call
  read_adapter : ℤ → Call
  close_adapter : ℤ → Call
  -- the uinput device
  open_device : CString → Call
  write_device : ℤ → Call
  set_key_events : ℤ → Call
  set_key_bit : ℤ → ℕ → Call
  create_device : ℤ → Call
  destroy_device : ℤ → Call
  write_event : ℤ → ℕ → ℕ → Call
  -- time, and the battery script
  get_time_of_day : Call
  access : CString → Call
  system : CString → Call
  -- the identity of the process
  setgid : ℕ → Call
  setuid : ℕ → Call
  getuid : Call
  geteuid : Call
  -- the log file; a pointer of 0 is NULL
  fopen : Option CString → Call
  fclose : ℤ → Call
  -- the process and its threads
  daemon : Call
  nice : Call
  sigaction : Signal → Handler → Call
  pthread_create : Thread → Call
  pthread_kill : Thread → Signal → Call
  pthread_join : Thread → Call

-- A call with its result.
pub record Event : Type 0 where
  pub call : Call
  pub result : ℤ

-- The newest event comes first.
abbrev pub Trace : Type 0
Trace = List Event

-- `struct timeval`
pub record Timeval : Type 0 where
  pub tv_sec : ℕ
  pub tv_usec : ℕ

pub record Env : Type 0 where
  pub answer : Trace → Call → ℤ
  pub clock : Trace → Timeval

abbrev pub perform : Env → Call → Trace → ℤ × Trace
perform env c t = (env.answer t c, record { call = c; result = env.answer t c } ∷ t)

-- POSIX: write() reports no more bytes than it was offered.
pub record WritesAtMost (env : Env) : Type 0 where
  pub at_most :
      (t : Trace) (fd : ℤ) (buf : List ℕ) (n : ℕ)
      → env.answer t (write fd buf) ≡ pos n
      → n ≤ length buf
