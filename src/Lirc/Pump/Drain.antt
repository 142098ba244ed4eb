-- ===== src/Lirc/Pump/Drain.antt =====
-- src/lirc_thr.c and src/q.c together: the rounds on the packets that are in the queue.
use bdremote_ng.Prelude.{
  ◌≡◌, refl, ap, sym, ◌∙◌, subst, false, some, List, [], ◌∷◌, replicate, length, Outcome, ok, stop,
  Returns, Ensures, All, >>=-of-ok,
}
use bdremote_ng.Sys.{Env, WritesAtMost}
use bdremote_ng.Fifo
use bdremote_ng.Fifo.{Taken, taken}
use bdremote_ng.Queue.{Queue, QueueData, Removal, removed, gave_up, waiting, queue_rem_non_block}
use bdremote_ng.Queue.Holds.{Holds}
use bdremote_ng.Queue.Refine.{RemovalMatches, queue_rem_non_block-refines}
use bdremote_ng.Lirc.Remote.{Machine}
use bdremote_ng.Lirc.Remote.Thread.{round}
use bdremote_ng.Lirc.Remote.Thread.Safety.{IsReady}
use bdremote_ng.Lirc.Remote.Thread.Rounds.{IsPacket}
use bdremote_ng.Lirc.Remote.Thread.Sessions.{one_round}
use bdremote_ng.Lirc.Pump.{with_queue, by_removal, queue_round, queue_rounds}
use bdremote_ng.Lirc.Pump.Unchanged.{HasQueue, round-HasQueue}

-- The rounds on the packets `xs`, one after another, bring the machine from the first state to the
-- second; beside the rounds only the queue changes.
pub data Handled (env : Env) : List QueueData → Machine → Machine → Type 0 where
  all_done : {m : Machine} → Handled env [] m m
  then_round :
      {x : QueueData} {xs : List QueueData} {m m1 m2 : Machine} (q : Queue QueueData)
      → round false env (some x) (with_queue q m) ≡ ok m1
      → Handled env xs m1 m2
      → Handled env (x ∷ xs) m m2

-- What the removal of a round hands out.
handed :
    (o : Removal QueueData) (x : QueueData) (xs : List QueueData)
    → RemovalMatches o (taken x xs)
    → (q : Queue QueueData) × (o ≡ removed (some x) q) × Holds q xs
handed (removed o q) x xs (e, h) = (q, ap (λ o. removed o q) e, h)
handed (gave_up q) x xs m = elim m [ ]
handed (waiting q) x xs m = elim m [ ]

first_out :
    {q : Queue QueueData} (x : QueueData) (xs : List QueueData)
    → Holds q (x ∷ xs)
    → (q' : Queue QueueData) × (queue_rem_non_block q [] ≡ removed (some x) q') × Holds q' xs
unfolding Fifo.remove_within
first_out {q} x xs h =
    handed (queue_rem_non_block q []) x xs (queue_rem_non_block-refines (x ∷ xs) [] [] h tt)

pub with_queue-IsReady : (q : Queue QueueData) (m : Machine) → IsReady m → IsReady (with_queue q m)
with_queue-IsReady q m v = record {
  magic = v.magic;
  table = record { slots = v.table.slots; used = v.table.used };
  distinct = v.distinct;
  room = v.room;
  index = v.index;
  short = v.short;
}

-- A result that is both returned and described.
returned :
    {A : Type 0} (P Q : A → Type 0) (o : Outcome A)
    → Returns P o
    → Ensures Q o
    → (a : A) × (o ≡ ok a) × P a × Q a
returned P Q (ok a) p q = (a, refl, p, q)
returned P Q (stop f) p q = elim p [ ]

queue_round-taken :
    (env : Env) (m : Machine) (x : QueueData) (q : Queue QueueData)
    → queue_rem_non_block m.ld.qu [] ≡ removed (some x) q
    → queue_round false env [] m ≡ round false env (some x) (with_queue q m)
unfolding queue_round by_removal
queue_round-taken env m x q e = rw e refl

-- From a state that is ready for a packet and whose queue holds `xs`, packets as queueDataInit makes
-- them, and with a write() that reports no more bytes than it was offered, as many rounds of the
-- LIRC thread of a build without key repeat as there are packets, none of which has to wait, handle
-- exactly these packets, in order, none of them fails, and they leave the queue empty and the state
-- ready.
pub queue_rounds-Handled :
    (env : Env) (m : Machine) (xs : List QueueData)
    → WritesAtMost env
    → IsReady m
    → Holds m.ld.qu xs
    → All IsPacket xs
    → (m' : Machine) × (queue_rounds false env (replicate (length xs) []) m ≡ ok m')
      × Handled env xs m m'
      × Holds m'.ld.qu []
      × IsReady m'
unfolding queue_rounds
queue_rounds-Handled env m [] w v h good = (m, refl, all_done, h, v)
queue_rounds-Handled env m (x ∷ xs) w v h good =
    let (q, e, held) = first_out x xs h in
    let (m1, e1, v1, kept) =
      returned IsReady (HasQueue q) (round false env (some x) (with_queue q m))
        (one_round env (with_queue q m) (some x) w (with_queue-IsReady q m v) good.0)
        (round-HasQueue env q (some x) (with_queue q m) refl) in
    let (m', e', handled, empty, v') =
      queue_rounds-Handled env m1 xs w v1 (subst (λ r. Holds r xs) (sym kept) held) good.1 in
    (
      m',
      >>=-of-ok (queue_round false env [] m) _ (queue_round-taken env m x q e ∙ e1) ∙ e',
      then_round q e1 handled,
      empty,
      v',
    )
