-- ===== src/Examples.antt =====
-- A small world for the examples: two clients of which one is broken, a device, a configuration.
mod Queues
mod Clients
mod Remotes
mod Captures
mod Bluetooth
mod Program
mod Memory
mod Texts
mod Options
use bdremote_ng.Prelude.{
  ℕ, ◌<◌, ◌≤◌, ◌≡◌, ◌≢◌, refl, inl, arith, ℤ, pos, minus_one, eq_ℤ, Bool, true, false, Option, none,
  some, List, [], ◌∷◌, length, replicate, if◌then◌else◌,
}
use bdremote_ng.Text.{codes}
use bdremote_ng.Sys.{Env, Trace, Call, write, accept, fopen, Timeval, WritesAtMost}
use bdremote_ng.Keys.{undef}
use bdremote_ng.Config.{Configuration, zeroed}
use bdremote_ng.EventOut.{Device}
use bdremote_ng.Queue.{queue_init}
use bdremote_ng.Lirc.{LircData, max_clients}
use bdremote_ng.Lirc.Clients.{clients}
use bdremote_ng.Lirc.Clients.Bounds.{IsTable}
use bdremote_ng.Lirc.Broadcast.Pass.{Distinct}
use bdremote_ng.Lirc.Remote.{KeyState, Machine}
use bdremote_ng.Lirc.Remote.Thread.Safety.{IsReady}

-- The client at descriptor 5 has gone; everything else works.
abbrev pub reply : Trace → Call → ℤ
reply t (write fd buf) = if eq_ℤ fd (pos 5) then minus_one else pos (length buf)
reply t (accept fd) = pos 7
reply t (fopen name) = pos 9
reply t _ = pos 0

abbrev pub noon : Timeval
noon = record { tv_sec = 43200; tv_usec = 500000 }

abbrev pub world : Env
world = record { answer = reply; clock = λ t. noon }

pub world-WritesAtMost : WritesAtMost world
world-WritesAtMost = record { at_most = λ t fd buf n e. ground arith }

abbrev pub house : Configuration
house = record zeroed {
  repeat_rate = pos 10;
  repeat_delay = pos 200;
  event_out = true;
  remote_addr = some (codes "00:11:22:33:44:55");
  release = some (codes "UP");
  battery_script_set = true;
  battery_script = some (codes "/bin/charge");
}

abbrev pub lirc : LircData
lirc = record {
  magic0 = 0x15;
  config = house;
  sockinet = pos 3;
  clis = pos 4 ∷ pos 5 ∷ replicate 14 (pos 0);
  clin = 2;
  charge_percent = pos 100;
  charge_percent_set = false;
  qu = queue_init;
}

pub lirc-IsTable : IsTable lirc
lirc-IsTable = record { slots = refl; used = omega arith }

pub lirc-Distinct : Distinct (clients lirc)
lirc-Distinct = (refl, (refl, tt))

abbrev pub idle_keys : KeyState
idle_keys = record {
  key_down = false;
  last_key = undef;
  cl0 = noon;
  cl1 = noon;
  elapsed = 0;
  repeat_count = 0;
  done_waiting = false;
}

abbrev pub machine : Machine
machine = record { ld = lirc; ks = idle_keys; device = record { event_out_fd = pos 6; trace = [] } }

pub machine-IsReady : IsReady machine
machine-IsReady = record {
  magic = refl;
  table = lirc-IsTable;
  distinct = lirc-Distinct;
  room = omega arith;
  index = inl refl;
  short = λ s e. ground arith;
}
