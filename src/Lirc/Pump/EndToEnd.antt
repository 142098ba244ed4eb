-- ===== src/Lirc/Pump/EndToEnd.antt =====
-- From the socket of the remote (src/capture/capture_bluez.c) by way of src/lirc_callback.c and
-- src/q.c to the handling of the keys (src/lirc_thr.c).
use bdremote_ng.Prelude.{
  ℕ, ◌+◌, ◌≤◌, ◌≡◌, ◌≢◌, refl, ap, sym, ◌∙◌, subst, arith, ℤ, pos, false, List, [], ◌∷◌, ◌++◌, map,
  replicate, length, ok, All,
}
use bdremote_ng.Sys.{Env, Trace, WritesAtMost}
use bdremote_ng.Config.{Configuration}
use bdremote_ng.Queue.{queue_size}
use bdremote_ng.Queue.Holds.{Holds}
use bdremote_ng.Capture.{Callback, Poll, canceled, silent, read_from_socket}
use bdremote_ng.Capture.Packets.{packets, bursts, InTime, read_from_socket-bursts}
use bdremote_ng.Lirc.{LircData}
use bdremote_ng.Lirc.Callback.{notify_all}
use bdremote_ng.Lirc.Callback.Packets.{packet, notify_all-AllQueued}
use bdremote_ng.Lirc.Callback.Unchanged.{SameClients, notify_all-SameClients}
use bdremote_ng.Lirc.Remote.{Machine}
use bdremote_ng.Lirc.Remote.Thread.Safety.{IsReady}
use bdremote_ng.Lirc.Remote.Thread.Rounds.{IsPacket}
use bdremote_ng.Lirc.Pump.{queue_rounds}
use bdremote_ng.Lirc.Pump.Drain.{Handled, queue_rounds-Handled}

-- the callbacks of a session: the packets in `bs`, then a second more than the time-out `t` without
-- a packet
abbrev pub heard : ℕ → List (ℕ × List ℕ) → Poll → List Poll → List Callback
heard t bs p polls =
    (read_from_socket (pos t) 0 (bursts bs (replicate (t + 1) silent ++ (p ∷ polls)))).0

-- the machine after the Bluetooth thread has been at work
abbrev pub after_callbacks : Machine → LircData → Trace → Machine
after_callbacks m d t = record m { ld = d; device = record m.device { trace = t } }

pub after_callbacks-IsReady :
    (m : Machine) (d : LircData) (t : Trace)
    → IsReady m
    → SameClients m.ld d
    → IsReady (after_callbacks m d t)
after_callbacks-IsReady m d t v (magic, config, clis, clin) = record {
  magic = magic ∙ v.magic;
  table = record {
    slots = ap (λ (xs : List ℤ). length xs) clis ∙ v.table.slots;
    used = omega (arith, clin, v.table.used);
  };
  distinct = rw (clin, clis) v.distinct;
  room = omega (arith, clin, v.room);
  index = v.index;
  short = λ s e. v.short s (ap (λ (c : Configuration). c.release) (sym config) ∙ e);
}

pub callbacks-SameClients :
    (env : Env) (cs : List Callback) (m : Machine) {d : LircData} {t : Trace}
    → notify_all env cs m.ld m.device.trace ≡ ok ([], d, t)
    → SameClients m.ld d
callbacks-SameClients env cs m e =
    rw e at (notify_all-SameClients env m.ld cs m.ld m.device.trace (refl, refl, refl, refl))

packets-IsPacket :
    (t : ℕ) (bs : List (ℕ × List ℕ))
    → All (InTime t) bs
    → All IsPacket (map packet (map (λ b. b.1) bs))
packets-IsPacket t [] h = tt
packets-IsPacket t (b ∷ bs) h = ((refl, h.0.1), packets-IsPacket t bs h.1)

length-packets : {A B : Type 0} (f : A → B) (xs : List A) → length (map f xs) ≡ length xs
length-packets f [] = refl
length-packets f (x ∷ xs) = omega (arith, length-packets f xs)

-- A session of the remote, from end to end, in a build without key repeat: the remote sends at most
-- QUEUESIZE packets that are not empty, none after more silent seconds than the time-out, then
-- nothing more until the time-out, and the daemon is not ended meanwhile. If the LIRC side is ready
-- for a packet, its queue empty, and write() reports no more bytes than it was offered, then every
-- callback of the session returns without a wait, and as many rounds of the LIRC thread as there
-- were packets handle exactly these packets, in the order in which they were sent, none of them
-- fails, and they leave the queue empty and the state ready for the next session.
pub session-Handled :
    (env : Env) (m : Machine) (t : ℕ) (bs : List (ℕ × List ℕ)) (p : Poll) (polls : List Poll)
    → WritesAtMost env
    → IsReady m
    → Holds m.ld.qu []
    → All (InTime t) bs
    → p ≢ canceled
    → length bs ≤ queue_size
    → (d : LircData) × (t1 : Trace) × (m' : Machine) × (notify_all env
          (heard t bs p polls)
          m.ld
          m.device.trace
        ≡ ok ([], d, t1))
      × (queue_rounds false env (replicate (length bs) []) (after_callbacks m d t1) ≡ ok m')
      × Handled env (map packet (map (λ b. b.1) bs)) (after_callbacks m d t1) m'
      × Holds m'.ld.qu []
      × IsReady m'
session-Handled env m t bs p polls w v empty timely going few =
    let cs = heard t bs p polls in
    let sent : packets cs ≡ map (λ b. b.1) bs =
      (read_from_socket-bursts t bs p polls timely going).0 in
    let size = length-packets (λ (b : ℕ × List ℕ). b.1) bs in
    let (d, t1, e, holds) =
      notify_all-AllQueued env cs m.ld m.device.trace [] v.magic empty
        (omega (arith, few, size, ap (λ (xs : List (List ℕ)). length xs) sent)) in
    let same = callbacks-SameClients env cs m e in
    let xs = map packet (map (λ b. b.1) bs) in
    let (m', rounds, handled, none_left, v') =
      queue_rounds-Handled env (after_callbacks m d t1) xs w (after_callbacks-IsReady m d t1 v same)
        (subst (λ ys. Holds d.qu (map packet ys)) sent holds) (packets-IsPacket t bs timely) in
    (
      d,
      t1,
      m',
      e,
      ap (λ n. queue_rounds false env (replicate n []) (after_callbacks m d t1))
            (sym (length-packets packet (map (λ b. b.1) bs) ∙ size))
          ∙ rounds,
      handled,
      none_left,
      v',
    )
