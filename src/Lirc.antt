-- ===== src/Lirc.antt =====
-- src/lirc_srv.h and the LIRC side of the daemon: the state that its threads share.
pub mod Socket
pub mod Clients
pub mod Server
pub mod Broadcast
pub mod Callback
pub mod Remote
pub mod Pump
use bdremote_ng.Prelude.{
  ℕ, ℤ, pos, minus_one, Bool, false, List, ◌++◌, replicate, drop, Outcome, ok, ◌>>=◌, ◌>>◌, assert,
  ◌==◌, eq_ℤ, length,
}
use bdremote_ng.Config.{Configuration}
use bdremote_ng.Queue.{Queue, QueueData, queue_init}

-- MAX_CLIENTS
abbrev pub max_clients : ℕ
max_clients = 16

-- `lirc_data`, without its mutex and its thread. `clis` is the array, of which `clin` are in use.
pub record LircData : Type 0 where
  pub magic0 : ℕ
  pub config : Configuration
  pub sockinet : ℤ
  pub clis : List ℤ
  pub clin : ℕ
  pub charge_percent : ℤ
  pub charge_percent_set : Bool
  pub qu : Queue QueueData

-- initLircData over memory whose array holds `before`. The memset clears MAX_CLIENTS bytes, which
-- are the first four descriptors; `int` has four bytes.
unfoldable pub init_lirc_data : List ℤ → Configuration → LircData
init_lirc_data before config = record {
  magic0 = 0x15;
  config = config;
  sockinet = minus_one;
  clis = replicate 4 (pos 0) ++ drop 4 before;
  clin = 0;
  charge_percent = pos 100;
  charge_percent_set = false;
  qu = queue_init;
}

-- destroyLircData: what it asserts of the state that it is left with
unfoldable pub destroy_lirc_data : LircData → Outcome (Unit {0})
destroy_lirc_data d = do assert (d.clin == 0); assert (eq_ℤ d.sockinet minus_one)
