-- ===== src/Lirc/Pump.antt =====
-- src/lirc_thr.c and src/q.c together: a round of lircThread takes its packet from the queue.
pub mod Unchanged
pub mod Drain
pub mod EndToEnd
pub mod Press
use bdremote_ng.Prelude.{
  ℕ, Bool, Option, none, some, List, [], ◌∷◌, Outcome, ok, stop, out_of_bounds, out_of_fuel, ◌>>=◌,
}
use bdremote_ng.Sys.{Env}
use bdremote_ng.Queue.{
  Queue, QueueData, Wakeup, Removal, removed, gave_up, waiting, queue_rem_non_block,
}
use bdremote_ng.Lirc.{LircData}
use bdremote_ng.Lirc.Remote.{Machine}
use bdremote_ng.Lirc.Remote.Thread.{round}

abbrev pub with_queue : Queue QueueData → Machine → Machine
with_queue q m = record m { ld = record m.ld { qu = q } }

-- A slot that was never written would be read as a pointer; a list of wakeups may be too short for
-- queueRemNonBlock to return.
unfoldable pub by_removal : Bool → Env → Removal QueueData → Machine → Outcome Machine
by_removal enable_repeat env (removed (some qd) q) m =
    round enable_repeat env (some qd) (with_queue q m)
by_removal enable_repeat env (removed none q) m = stop out_of_bounds
by_removal enable_repeat env (gave_up q) m = round enable_repeat env none (with_queue q m)
by_removal enable_repeat env (waiting q) m = stop out_of_fuel

-- a round of the loop, with the ends of the waits of its queueRemNonBlock
unfoldable pub queue_round : Bool → Env → List (Wakeup QueueData) → Machine → Outcome Machine
queue_round enable_repeat env wakeups m =
    by_removal enable_repeat env (queue_rem_non_block m.ld.qu wakeups) m

unfoldable pub queue_rounds :
    Bool → Env → List (List (Wakeup QueueData)) → Machine → Outcome Machine
queue_rounds enable_repeat env [] m = ok m
queue_rounds enable_repeat env (ws ∷ wss) m =
    queue_round enable_repeat env ws m >>= queue_rounds enable_repeat env wss
