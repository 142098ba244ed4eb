-- ===== src/Lirc/Callback/Packets.antt =====
-- src/lirc_callback.c: the packets of the remote on their way into the queue of the LIRC thread.
use bdremote_ng.Prelude.{
  ℕ, ◌+◌, ◌≤◌, ◌<◌, ◌≡◌, refl, sym, ◌∙◌, subst, arith, ℤ, pos, eq_ℤ, true, false, Option, none,
  some, List, [], ◌∷◌, ◌++◌, map, take, length, leb, le→leb, ◌==◌, Outcome, ok, Bool-cases, inl,
  inr, append-nil, append_assoc, take_of_le, length-append,
}
use bdremote_ng.Sys.{Env, Trace}
use bdremote_ng.Queue.{Queue, QueueData, queue_size, queue_data_init, add_section}
use bdremote_ng.Queue.Holds.{Holds}
use bdremote_ng.Queue.Refine.{AddMatches, add_section-refines}
use bdremote_ng.Fifo
use bdremote_ng.Capture.{Callback, remote_battery_charge, data_ind}
use bdremote_ng.Capture.Packets.{packets}
use bdremote_ng.Lirc.{LircData}
use bdremote_ng.Lirc.Callback.{
  on_battery_charge, on_data_ind, notify, notify_all, go_on, queued, with_trace,
}

-- a packet as it stands in the queue
abbrev pub packet : List ℕ → QueueData
packet bytes = record { buffer = bytes; size = length bytes }

-- queueDataInit copies all of the bytes.
pub queue_data_init-packet :
    (bytes : List ℕ) → queue_data_init (some bytes) (pos (length bytes)) ≡ ok (packet bytes)
unfolding queue_data_init
queue_data_init-packet bytes =
    let fits : leb (length bytes) (length bytes) ≡ true = le→leb _ _ (omega arith) in
    let whole : take (length bytes) bytes ≡ bytes = take_of_le (length bytes) bytes (omega arith) in
    rw (fits, whole) refl

from_match :
    (o : Option (Queue QueueData)) (ys : List QueueData)
    → AddMatches o (some ys)
    → (q' : Queue QueueData) × (o ≡ some q') × Holds q' ys
from_match none ys m = elim m [ ]
from_match (some q') ys m = (q', refl, m)

add-room :
    (ys : List QueueData) (y : QueueData)
    → length ys < queue_size
    → Fifo.add ys y ≡ some (ys ++ (y ∷ []))
unfolding Fifo.add
add-room ys y below =
    let e : (length ys == Fifo.capacity) ≡ false = ground (arith, below) in rw e refl

add-below :
    {q : Queue QueueData} {xs : List QueueData} (x : QueueData)
    → Holds q xs
    → length xs < queue_size
    → (q' : Queue QueueData) × (add_section q x ≡ some q') × Holds q' (xs ++ (x ∷ []))
add-below {q} {xs} x h room =
    from_match (add_section q x) (xs ++ (x ∷ []))
      (subst (AddMatches (add_section q x)) (add-room xs x room) (add_section-refines x h))

-- What is left is nothing, and the queue holds `ys`.
abbrev pub AllQueued : List QueueData → Outcome (List Callback × LircData × Trace) → Type 0
AllQueued ys o = (d' : LircData) × (t' : Trace) × (o ≡ ok ([], d', t')) × Holds d'.qu ys

-- A charge report leaves the queue and the magic as they are.
on_battery_charge-qu :
    (env : Env) (v : ℤ) (d : LircData) (t : Trace)
    → ((on_battery_charge env v d t).0.qu ≡ d.qu)
      × ((on_battery_charge env v d t).0.magic0 ≡ d.magic0)
unfolding on_battery_charge
on_battery_charge-qu env v d t = elim (Bool-cases d.charge_percent_set) [
  | inr fresh ↦ simp fresh (refl, refl)
  | inl known ↦ elim (Bool-cases (eq_ℤ d.charge_percent v)) [
    | inl same ↦ simp (known, same) (refl, refl)
    | inr other ↦ simp (known, other) (refl, refl)
  ]
]

on_data_ind-ok :
    (bytes : List ℕ) (d : LircData) {q' : Queue QueueData}
    → d.magic0 ≡ 0x15
    → add_section d.qu (packet bytes) ≡ some q'
    → on_data_ind bytes d ≡ ok (some (record d { qu = q' }))
unfolding on_data_ind queued
on_data_ind-ok bytes d magic e =
    let right : (d.magic0 == 0x15) ≡ true = ground (arith, magic) in
    rw (right, queue_data_init-packet bytes, e) refl

-- The callbacks of a reading, on a queue that holds `xs`, do not wait when all the packets among
-- them still find room beside `xs`, and then the queue holds these packets behind `xs`, in order.
pub notify_all-AllQueued :
    (env : Env) (cs : List Callback) (d : LircData) (t : Trace) (xs : List QueueData)
    → d.magic0 ≡ 0x15
    → Holds d.qu xs
    → length xs + length (packets cs) ≤ queue_size
    → AllQueued (xs ++ map packet (packets cs)) (notify_all env cs d t)
unfolding notify_all go_on notify with_trace
notify_all-AllQueued env [] d t xs magic h room =
    (d, t, refl, subst (Holds d.qu) (sym (append-nil xs)) h)
notify_all-AllQueued env (remote_battery_charge v ∷ cs) d t xs magic h room =
    let (same, magic_same) = on_battery_charge-qu env (pos v) d t in
    notify_all-AllQueued env cs (on_battery_charge env (pos v) d t).0
      (on_battery_charge env (pos v) d t).1 xs (magic_same ∙ magic)
      (subst (λ q. Holds q xs) (sym same) h) room
notify_all-AllQueued env (data_ind bytes ∷ cs) d t xs magic h room =
    let (q', e, h') = add-below (packet bytes) h (omega (arith, room)) in
    let (d', t', done, holds) =
      notify_all-AllQueued env cs (record d { qu = q' }) t (xs ++ (packet bytes ∷ [])) magic h'
        (omega (arith, room, length-append xs (packet bytes ∷ []))) in
    (
      d',
      t',
      rw (on_data_ind-ok bytes d magic e) done,
      subst (Holds d'.qu) (append_assoc xs (packet bytes ∷ []) (map packet (packets cs))) holds,
    )
