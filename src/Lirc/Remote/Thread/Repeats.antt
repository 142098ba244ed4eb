-- ===== src/Lirc/Remote/Thread/Repeats.antt =====
-- src/lirc_thr.c: a round of the LIRC thread in a build with ENABLE_REPEAT.
use bdremote_ng.Prelude.{
  ℕ, ◌<◌, ◌≤◌, ◌^◌, ◌≡◌, ◌≢◌, ◌⊎◌, inl, inr, refl, ap, sym, ◌∙◌, subst, >>=-of-ok, ◌∷◌, arith, ℤ,
  pos, true, false, Option, none, some, length, get_elem?, leb, le→leb, lt→ltb, ltb, ok, ◌>>=◌,
  Returns, Returns-bind, Bool-cases, if◌then◌else◌,
}
use bdremote_ng.Sys.{Env, Trace, Event, WritesAtMost, perform, get_time_of_day}
use bdremote_ng.Keys.{KeyInfo, keys, undef}
use bdremote_ng.Keys.Lookup.{key-Fits}
use bdremote_ng.Queue.{QueueData, queue_data_de_init}
use bdremote_ng.EventOut.{Device}
use bdremote_ng.Lirc.Broadcast.{message}
use bdremote_ng.Lirc.Broadcast.Message.{length-message-le}
use bdremote_ng.Lirc.Remote.{KeyState, Machine, key_at, name_of, broadcast, send_event, handle_key}
use bdremote_ng.Lirc.Remote.Clock.{init_time, update_time}
use bdremote_ng.Lirc.Remote.Thread.{
  repeated, rate_delay, send_after_ms, send_repeat, hold, timed, restart, take_packet, repeat_key,
  round,
}
use bdremote_ng.Lirc.Remote.Thread.Safety.{
  IsReady, IsIndex, length-name_of, broadcast-IsReady, send_event-IsReady,
}
use bdremote_ng.Lirc.Remote.Thread.Rounds.{IsInput, handle_key-IsReady}

-- The clock never goes back to an earlier second.
pub record NeverBack (env : Env) : Type 0 where
  pub onward : (t : Trace) (e : Event) → (env.clock t).tv_sec ≤ (env.clock (e ∷ t)).tv_sec

-- No key is held, or the held key is in the table.
abbrev pub KnownIfHeld : Machine → Type 0
KnownIfHeld m = (m.ks.key_down ≡ false) ⊎ (m.ks.last_key ≢ undef)

-- the clock is not behind what the thread last read
abbrev pub IsOnTime : Env → Machine → Type 0
IsOnTime env m = m.ks.cl0.tv_sec ≤ (env.clock m.device.trace).tv_sec

-- The same machine with other clocks and counters.
with_keys-IsReady :
    (ks : KeyState) (device : Device) (m : Machine)
    → ks.last_key ≡ m.ks.last_key
    → IsReady m
    → IsReady (record m { ks = ks; device = device })
with_keys-IsReady ks device m e v = record {
  magic = v.magic;
  table = v.table;
  distinct = v.distinct;
  room = v.room;
  index = subst IsIndex (sym e) v.index;
  short = v.short;
}

key_at-known :
    {num : ℤ} {i : ℕ} {k : KeyInfo} → num ≡ pos i → get_elem? keys i ≡ some k → key_at num ≡ ok k
unfolding key_at
key_at-known last at = ap key_at last ∙ rw at refl

-- While the first wait goes on, nothing is sent.
waiting_on :
    (m : Machine)
    → IsReady m
    → IsReady (
        if leb (rate_delay m.ld.config) m.ks.elapsed
        then record m { ks = record m.ks { done_waiting = true; elapsed = 0 } }
        else m)
waiting_on m v = elim (Bool-cases (leb (rate_delay m.ld.config) m.ks.elapsed)) [
  | inl over ↦ simp over (with_keys-IsReady _ m.device m refl v)
  | inr early ↦ simp early v
]

module _ (env : Env) (w : WritesAtMost env) where
  send_repeat-IsReady :
      (m : Machine)
      → IsReady m
      → m.ks.last_key ≢ undef
      → m.ks.repeat_count < 2 ^ 31
      → Returns IsReady (send_repeat env m)
  unfolding send_repeat
  send_repeat-IsReady m v known small = by_index v.index
    where
      by_index : IsIndex m.ks.last_key → Returns IsReady (send_repeat env m)
      by_index (inl e) = absurd (known e)
      by_index (inr (i, k, last, at)) =
          let name = name_of m.ld.config k in
          let fits : length (message k.code m.ks.repeat_count name) < 100 = omega (
            arith,
            length-message-le k.code m.ks.repeat_count name
                (omega (arith, (key-Fits i at).code_small)) (omega arith),
            length-name_of m.ld.config i at,
          ) in
          subst (Returns IsReady) (sym (>>=-of-ok (key_at m.ks.last_key) _ (key_at-known last at)))
            (Returns-bind _ IsReady (broadcast env name m.ks.repeat_count k.code m) _
              (broadcast-IsReady env w name m.ks.repeat_count k.code m v fits)
              (λ m1 r.
                let sent = send_event env k 2 m1 in
                with_keys-IsReady (repeated sent).ks sent.device sent refl
                  (send_event-IsReady env w k 2 m1 r.0)))

  hold-IsReady :
      (m : Machine)
      → IsReady m
      → m.ks.last_key ≢ undef
      → m.ks.repeat_count < 2 ^ 31
      → Returns IsReady (hold env m)
  unfolding hold
  hold-IsReady m v known small = elim (Bool-cases m.ks.done_waiting) [
    | inl over ↦ elim (Bool-cases (leb (send_after_ms m.ld.config) m.ks.elapsed)) [
      | inl due ↦ simp (over, due) (send_repeat-IsReady m v known small)
      | inr early ↦ simp (over, early) v
    ]
    | inr waits ↦ simp waits (waiting_on m v)
  ]

  -- a round without a packet
  silent-IsReady :
      (m : Machine)
      → IsReady m
      → KnownIfHeld m
      → IsOnTime env m
      → m.ks.repeat_count < 2 ^ 31
      → Returns IsReady (repeat_key true env m)
  unfolding repeat_key timed update_time
  silent-IsReady m v held order small = elim (Bool-cases m.ks.key_down) [
    | inr up ↦ simp up v
    | inl down ↦
        let known : m.ks.last_key ≢ undef = ground arith in
        let onward : leb m.ks.cl0.tv_sec (env.clock m.device.trace).tv_sec ≡ true =
          le→leb _ _ order in
        simp (down, onward) (hold-IsReady _ (with_keys-IsReady _ _ m refl v) known small)
  ]

  -- after a packet the wait begins anew, so that the round repeats nothing
  restarted-IsReady :
      (m : Machine)
      → NeverBack env
      → IsReady m
      → Returns IsReady (repeat_key true env (restart env m))
  unfolding repeat_key timed update_time restart init_time hold
  restarted-IsReady m back v = elim (Bool-cases m.ks.key_down) [
    | inr up ↦ simp up (with_keys-IsReady _ _ m refl v)
    | inl down ↦
        let t1 = (perform env get_time_of_day m.device.trace).1 in
        let onward : leb (env.clock m.device.trace).tv_sec (env.clock t1).tv_sec ≡ true =
          le→leb _ _ (back.onward m.device.trace _) in
        simp (down, onward) (waiting_on _ (with_keys-IsReady _ _ m refl v))
  ]

-- A round of the LIRC thread in a build with key repeat never fails while the held key is known: in
-- a state that is ready for a packet (a well-formed table with fewer than MAX_CLIENTS clients, all on
-- distinct descriptors, a release suffix of at most 61 bytes, a last key that is an index of the key
-- table or undef), in which no key is held or the held key is in the table, with a repeat count
-- below 2 ^ 31, a clock that never goes back to an earlier second, and a write() that reports no more
-- bytes than it was offered, a round on a packet as queueDataInit makes it or on a time-out ends
-- normally and leaves a state that is ready for a packet.
pub repeat_round-IsReady :
    (env : Env) (qd : Option QueueData) (m : Machine)
    → WritesAtMost env
    → NeverBack env
    → IsReady m
    → IsInput qd
    → KnownIfHeld m
    → IsOnTime env m
    → m.ks.repeat_count < 2 ^ 31
    → Returns IsReady (round true env qd m)
unfolding round take_packet queue_data_de_init
repeat_round-IsReady env none m w back v given held order small =
    silent-IsReady env w m v held order small
repeat_round-IsReady env (some qd) m w back v given held order small =
    let full : ltb 0 qd.size ≡ true = lt→ltb _ _ given.1 in
    let goes_on : Machine → Type 0 = λ m1. Returns IsReady (repeat_key true env m1) in
    simp full (
      Returns-bind goes_on IsReady
        (handle_key env qd.buffer qd.size m >>= (λ m1. ok (restart env m1))) _
        (Returns-bind IsReady goes_on (handle_key env qd.buffer qd.size m) _
          (handle_key-IsReady env w qd.buffer qd.size m v given.0)
          (λ m1 v1. restarted-IsReady env w m1 back v1))
        (λ m1 h. h))
