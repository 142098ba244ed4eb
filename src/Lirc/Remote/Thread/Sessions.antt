-- ===== src/Lirc/Remote/Thread/Sessions.antt =====
-- src/lirc_thr.c and src/lirc_srv.c together: the LIRC thread of the default build while the main
-- thread accepts clients. What add_client does to the table is one step between two rounds.
use bdremote_ng.Prelude.{
  ◌+◌, ◌<◌, ◌≤◌, ◌≡◌, inl, inr, refl, sym, ap, ◌∙◌, subst, arith, ℤ, Bool, true, false, Option,
  List, [], ◌∷◌, ◌++◌, eq_ℤ, eq_ℤ_iff, ok, Returns, Returns-bind, Bool-cases, if◌then◌else◌,
}
use bdremote_ng.Sys.{Env, Trace, WritesAtMost, accept}
use bdremote_ng.Config.{Configuration}
use bdremote_ng.Queue.{QueueData}
use bdremote_ng.Lirc.{LircData, max_clients}
use bdremote_ng.Lirc.Clients.{clients, is_rejected, add_client}
use bdremote_ng.Lirc.Clients.Bounds.{clients-add_client}
use bdremote_ng.Lirc.Broadcast.Pass.{is_in, Distinct}
use bdremote_ng.Lirc.Remote.{Machine}
use bdremote_ng.Lirc.Remote.Thread.{take_packet, repeat_key, round}
use bdremote_ng.Lirc.Remote.Thread.Safety.{IsReady}
use bdremote_ng.Lirc.Remote.Thread.Rounds.{IsInput, take_packet-IsReady}

-- the machine after add_client
unfoldable pub with_client : Env → Machine → Machine
with_client env m =
    let (d, t) = add_client env m.ld m.device.trace in
    record m { ld = d; device = record m.device { trace = t } }

-- A round of the LIRC thread, or a client that connects under a descriptor that no client has, while
-- there is room for it and one more.
pub data Turn (env : Env) (m : Machine) : Machine → Type 0 where
  lirc_round :
      {m1 : Machine} (qd : Option QueueData)
      → IsInput qd
      → round false env qd m ≡ ok m1
      → Turn env m m1
  client_connects :
      m.ld.clin + 1 < max_clients
      → is_in (env.answer m.device.trace (accept m.ld.sockinet)) (clients m.ld) ≡ false
      → Turn env m (with_client env m)

pub data Session (env : Env) (m0 : Machine) : Machine → Type 0 where
  opening : Session env m0 m0
  then_turn : {m m1 : Machine} → Session env m0 m → Turn env m m1 → Session env m0 m1

is_in-snoc :
    (g fd : ℤ) (xs : List ℤ)
    → is_in g xs ≡ false
    → eq_ℤ fd g ≡ false
    → is_in g (xs ++ (fd ∷ [])) ≡ false
is_in-snoc g fd [] h ne = ground arith
is_in-snoc g fd (x ∷ xs) h ne = ground (arith, is_in-snoc g fd xs)

Distinct-snoc :
    (fd : ℤ) (xs : List ℤ) → Distinct xs → is_in fd xs ≡ false → Distinct (xs ++ (fd ∷ []))
Distinct-snoc fd [] d fresh = (refl, tt)
Distinct-snoc fd (x ∷ xs) d fresh = (
  is_in-snoc x fd xs d.0 (ground (arith, eq_ℤ_iff x fd, eq_ℤ_iff fd x)),
  Distinct-snoc fd xs d.1 (ground arith),
)

-- add_client changes nothing but the table.
add_client-rest :
    (env : Env) (d : LircData) (t : Trace)
    → ((add_client env d t).0.magic0 ≡ d.magic0)
      × ((add_client env d t).0.config ≡ d.config)
      × ((add_client env d t).0.clin ≤ d.clin + 1)
unfolding add_client
add_client-rest env d t =
    elim (Bool-cases (is_rejected (env.answer t (accept d.sockinet)) d.clin)) [
      | inl rejected ↦ simp rejected (refl, refl, omega arith)
      | inr taken ↦ simp taken (refl, refl, omega arith)
    ]

Distinct-clients :
    (fd : ℤ) (xs ys : List ℤ) (rejected : Bool)
    → Distinct xs
    → is_in fd xs ≡ false
    → ys ≡ (if rejected then xs else xs ++ (fd ∷ []))
    → Distinct ys
Distinct-clients fd xs ys true d fresh e = subst Distinct (sym e) d
Distinct-clients fd xs ys false d fresh e = subst Distinct (sym e) (Distinct-snoc fd xs d fresh)

pub with_client-IsReady :
    (env : Env) (m : Machine)
    → IsReady m
    → m.ld.clin + 1 < max_clients
    → is_in (env.answer m.device.trace (accept m.ld.sockinet)) (clients m.ld) ≡ false
    → IsReady (with_client env m)
unfolding with_client
with_client-IsReady env m v room fresh =
    let (magic, config, fewer) = add_client-rest env m.ld m.device.trace in
    let (table, added) = clients-add_client env m.ld m.device.trace v.table in
    record {
      magic = magic ∙ v.magic;
      table = table;
      distinct =
          Distinct-clients (env.answer m.device.trace (accept m.ld.sockinet)) (clients m.ld) _
            (is_rejected (env.answer m.device.trace (accept m.ld.sockinet)) m.ld.clin) v.distinct
            fresh added;
      room = omega (arith, fewer, room);
      index = v.index;
      short = λ s e. v.short s (ap (λ (c : Configuration). c.release) (sym config) ∙ e);
    }

pub one_round :
    (env : Env) (m : Machine) (qd : Option QueueData)
    → WritesAtMost env
    → IsReady m
    → IsInput qd
    → Returns IsReady (round false env qd m)
unfolding round repeat_key
one_round env m qd w v given =
    Returns-bind IsReady IsReady (take_packet false env qd m) ok
      (take_packet-IsReady env w qd m v given) (λ m1 v1. v1)

from_round :
    (env : Env) (m m1 : Machine) (qd : Option QueueData)
    → WritesAtMost env
    → IsReady m
    → IsInput qd
    → round false env qd m ≡ ok m1
    → IsReady m1
from_round env m m1 qd w v given e = subst (Returns IsReady) e (one_round env m qd w v given)

Session-IsReady :
    (env : Env) {m0 m : Machine} → WritesAtMost env → IsReady m0 → Session env m0 m → IsReady m
Session-IsReady env w v opening = v
Session-IsReady env w v (then_turn {m = m} {m1 = m1} s (lirc_round qd given e)) =
    from_round env m m1 qd w (Session-IsReady env w v s) given e
Session-IsReady env w v (then_turn {m = m} s (client_connects room fresh)) =
    with_client-IsReady env m (Session-IsReady env w v s) room fresh

-- The LIRC thread of a build without key repeat never fails while the main thread accepts clients
-- between its rounds: after any sequence of its rounds and of clients that connect, each under a
-- descriptor that no client has and while at most MAX_CLIENTS - 2 are there, from a state that is
-- ready for a packet (a well-formed table, fewer than MAX_CLIENTS clients on distinct descriptors, a
-- release suffix of at most 61 bytes, a last key that is an index of the key table or undef), and
-- with a write() that reports no more bytes than it was offered, the next round, on a packet as
-- queueDataInit makes it or on a time-out, ends normally and leaves such a state.
pub round-IsReady :
    (env : Env) {m0 m : Machine} (qd : Option QueueData)
    → WritesAtMost env
    → IsReady m0
    → Session env m0 m
    → IsInput qd
    → Returns IsReady (round false env qd m)
round-IsReady env {m = m} qd w v s given = one_round env m qd w (Session-IsReady env w v s) given
