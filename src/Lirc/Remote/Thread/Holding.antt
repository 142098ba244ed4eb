-- ===== src/Lirc/Remote/Thread/Holding.antt =====
-- src/lirc_thr.c and src/lirc_srv.c together, in a build with ENABLE_REPEAT: the LIRC thread while the
-- main thread accepts clients and keys are held.
use bdremote_ng.Prelude.{◌+◌, ◌<◌, ◌^◌, ◌≡◌, true, false, Option, ok, subst, Returns, Ensures}
use bdremote_ng.Sys.{Env, WritesAtMost, accept}
use bdremote_ng.Queue.{QueueData}
use bdremote_ng.Lirc.{max_clients}
use bdremote_ng.Lirc.Clients.{clients}
use bdremote_ng.Lirc.Broadcast.Pass.{is_in}
use bdremote_ng.Lirc.Remote.{Machine}
use bdremote_ng.Lirc.Remote.Thread.{round}
use bdremote_ng.Lirc.Remote.Thread.Safety.{IsReady}
use bdremote_ng.Lirc.Remote.Thread.Rounds.{IsInput}
use bdremote_ng.Lirc.Remote.Thread.Sessions.{with_client, with_client-IsReady}
use bdremote_ng.Lirc.Remote.Thread.Repeats.{NeverBack, KnownIfHeld, IsOnTime, repeat_round-IsReady}
use bdremote_ng.Lirc.Remote.Thread.KnownKeys.{NamesKey, round-KnownIfHeld}

-- What a round of a build with key repeat meets: a packet as queueDataInit makes it or none, no code
-- of a key that is not in the table, a clock that has not gone back since the thread last read it,
-- and fewer than 2 ^ 31 repeats so far.
pub record IsUsual (env : Env) (m : Machine) (qd : Option QueueData) : Type 0 where
  pub input : IsInput qd
  pub named : NamesKey qd
  pub on_time : IsOnTime env m
  pub few : m.ks.repeat_count < 2 ^ 31

-- Usual rounds, and clients that connect between them, each under a descriptor that no client has
-- and while there is room for it and one more.
pub data Holding (env : Env) (m0 : Machine) : Machine → Type 0 where
  at_first : Holding env m0 m0
  then_round :
      {m m1 : Machine} (qd : Option QueueData)
      → Holding env m0 m
      → IsUsual env m qd
      → round true env qd m ≡ ok m1
      → Holding env m0 m1
  then_client :
      {m : Machine}
      → Holding env m0 m
      → m.ld.clin + 1 < max_clients
      → is_in (env.answer m.device.trace (accept m.ld.sockinet)) (clients m.ld) ≡ false
      → Holding env m0 (with_client env m)

module _ (env : Env) (w : WritesAtMost env) (back : NeverBack env) where
  one_round-Safe :
      (m : Machine) (qd : Option QueueData)
      → IsReady m
      → KnownIfHeld m
      → IsUsual env m qd
      → Returns IsReady (round true env qd m) × Ensures KnownIfHeld (round true env qd m)
  one_round-Safe m qd v held u = (
    repeat_round-IsReady env qd m w back v u.input held u.on_time u.few,
    round-KnownIfHeld env qd m held u.named,
  )

  Holding-Safe :
      {m0 m : Machine} → IsReady m0 → KnownIfHeld m0 → Holding env m0 m → IsReady m × KnownIfHeld m
  unfolding with_client
  Holding-Safe v held at_first = (v, held)
  Holding-Safe v held (then_round {m = m} {m1 = m1} qd s u e) =
      let (v1, held1) = Holding-Safe v held s in
      let (r, k) = one_round-Safe m qd v1 held1 u in
      (subst (Returns IsReady) e r, subst (Ensures KnownIfHeld) e k)
  Holding-Safe v held (then_client {m = m} s room fresh) =
      let (v1, held1) = Holding-Safe v held s in (with_client-IsReady env m v1 room fresh, held1)

-- The LIRC thread of a build with key repeat never fails while the remote sends no code that is not
-- in the table and the main thread accepts clients between its rounds: from a state that is ready
-- for a packet (a well-formed table with fewer than MAX_CLIENTS clients on distinct descriptors, a
-- release suffix of at most 61 bytes, a last key that is an index of the key table or undef) and in
-- which no key is held or the held key is in the table, after any sequence of rounds and of clients
-- that connect, each under a descriptor that no client has and while at most MAX_CLIENTS - 2 are
-- there, the next round ends normally and leaves a state that is ready for a packet. Each round is
-- on a packet as queueDataInit makes it or on a time-out, with fewer than 2 ^ 31 repeats before it
-- and a clock that has not gone back; the clock never goes back to an earlier second between two
-- calls, and write() reports no more bytes than it was offered.
pub held_round-IsReady :
    (env : Env) {m0 m : Machine} (qd : Option QueueData)
    → WritesAtMost env
    → NeverBack env
    → IsReady m0
    → KnownIfHeld m0
    → Holding env m0 m
    → IsUsual env m qd
    → Returns IsReady (round true env qd m)
held_round-IsReady env {m = m} qd w back v held s u =
    let (v1, held1) = Holding-Safe env w back v held s in
    (one_round-Safe env w back m qd v1 held1 u).0
