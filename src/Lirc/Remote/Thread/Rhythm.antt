-- ===== src/Lirc/Remote/Thread/Rhythm.antt =====
-- src/lirc_thr.c: when a held key repeats, in a build with ENABLE_REPEAT.
use bdremote_ng.Prelude.{
  ℕ, ◌+◌, ◌<◌, ◌≤◌, ◌%◌, ◌^◌, ◌≡◌, refl, ap, sym, ◌∙◌, arith, ℤ, pos, true, false, none, some,
  get_elem?, leb, le→leb, if◌then◌else◌, ok, stop, out_of_bounds, Bool-cases, inl, inr, append-nil,
  >>=-of-ok, length,
}
use bdremote_ng.Lirc.Broadcast.Message.{length-message-le}
use bdremote_ng.Keys.Lookup.{key-Fits}
use bdremote_ng.Sys.{Env, Timeval, WritesAtMost, perform, get_time_of_day}
use bdremote_ng.Sys.Delivery.{delivered}
use bdremote_ng.Keys.{KeyInfo, keys, undef}
use bdremote_ng.Lirc.Clients.{clients}
use bdremote_ng.Lirc.Broadcast.{message}
use bdremote_ng.Lirc.Broadcast.Delivery.{Fates, Fates-earlier}
use bdremote_ng.Lirc.Remote.{KeyState, Machine, key_at, name_of, broadcast, send_event}
use bdremote_ng.Lirc.Remote.Clock.{update_time, counted_ms}
use bdremote_ng.Lirc.Remote.Press.{
  broadcast-Announced, with_event, send_event-with_event, send_event_keys,
}
use bdremote_ng.Lirc.Remote.Thread.Safety.{IsReady, length-name_of}
use bdremote_ng.Lirc.Remote.Thread.{
  repeated, rate_delay, send_after_ms, send_repeat, hold, timed, take_packet, repeat_key, round,
}

-- the time of day of the next look at the clock
abbrev pub now : Env → Machine → Timeval
now env m = env.clock m.device.trace

-- `elapsed` after updateTime
abbrev pub elapsed_next : Env → Machine → ℕ
elapsed_next env m = (m.ks.elapsed + counted_ms m.ks.cl0 (now env m)) % 2 ^ 64

-- A key is held, and the clock has not gone back to an earlier second.
pub record IsHeld (env : Env) (m : Machine) : Type 0 where
  pub down : m.ks.key_down ≡ true
  pub onward : m.ks.cl0.tv_sec ≤ (now env m).tv_sec

-- the machine once updateTime has run
unfoldable ticked : Env → Machine → Machine
ticked env m = record m {
  ks = record m.ks { cl1 = now env m; cl0 = now env m; elapsed = elapsed_next env m };
  device = record m.device { trace = (perform env get_time_of_day m.device.trace).1 };
}

round-hold :
    (env : Env) (m : Machine) → IsHeld env m → round true env none m ≡ hold env (ticked env m)
unfolding round take_packet repeat_key timed update_time ticked
round-hold env m h =
    let order : leb m.ks.cl0.tv_sec (now env m).tv_sec ≡ true = le→leb _ _ h.onward in
    simp (h.down, order)

-- Looking at the clock writes nothing.
delivered-ticked :
    (env : Env) (m : Machine) (g : ℤ)
    → delivered g (ticked env m).device.trace ≡ delivered g m.device.trace
unfolding ticked
delivered-ticked env m g = simp append-nil

-- In a build with key repeat, while a key is held, its first wait is not over and the clock does
-- not go back to an earlier second, a round of the thread in which no packet arrives ends normally,
-- sends no client anything and keeps the clients; the wait is over after it exactly when the time
-- counted has reached the repeat delay, and the time is then counted anew.
round-waiting :
    (env : Env) (m : Machine)
    → IsHeld env m
    → m.ks.done_waiting ≡ false
    → (m' : Machine) × (round true env none m ≡ ok m')
      × ((g : ℤ) → delivered g m'.device.trace ≡ delivered g m.device.trace)
      × (m'.ld ≡ m.ld)
      × (m'.ks.done_waiting ≡ leb (rate_delay m.ld.config) (elapsed_next env m))
      × (m'.ks.elapsed
          ≡ (if leb (rate_delay m.ld.config) (elapsed_next env m) then 0 else elapsed_next env m))
unfolding hold ticked
round-waiting env m h wait = elim (Bool-cases (leb (rate_delay m.ld.config) (elapsed_next env m))) [
  | inl over ↦ (
    record (ticked env m) { ks = record (ticked env m).ks { done_waiting = true; elapsed = 0 } },
    round-hold env m h ∙ simp (wait, over),
    delivered-ticked env m,
    refl,
    sym over,
    simp over,
  )
  | inr not_yet ↦ (
    ticked env m,
    round-hold env m h ∙ simp (wait, not_yet),
    delivered-ticked env m,
    refl,
    wait ∙ sym not_yet,
    simp not_yet,
  )
]

-- In a build with key repeat, while a key is held, its first wait is over and the clock does not go
-- back to an earlier second, a round in which no packet arrives and in which less time than the
-- repeat period has been counted ends normally, sends no client anything, keeps the clients, and
-- goes on counting.
pub round-between :
    (env : Env) (m : Machine)
    → IsHeld env m
    → m.ks.done_waiting ≡ true
    → elapsed_next env m < send_after_ms m.ld.config
    → (m' : Machine) × (round true env none m ≡ ok m')
      × ((g : ℤ) → delivered g m'.device.trace ≡ delivered g m.device.trace)
      × (m'.ld ≡ m.ld)
      × (m'.ks.done_waiting ≡ true)
      × (m'.ks.elapsed ≡ elapsed_next env m)
unfolding hold ticked
round-between env m h over early =
    let not_yet : leb (send_after_ms m.ld.config) (elapsed_next env m) ≡ false =
      ground (arith, early) in
    (
      ticked env m,
      round-hold env m h ∙ simp (over, not_yet),
      delivered-ticked env m,
      refl,
      over,
      refl,
    )

ticked-IsReady : (env : Env) (m : Machine) → IsReady m → IsReady (ticked env m)
unfolding ticked
ticked-IsReady env m v = record {
  magic = v.magic;
  table = v.table;
  distinct = v.distinct;
  room = v.room;
  index = v.index;
  short = v.short;
}

hold-due :
    (env : Env) (m : Machine)
    → m.ks.done_waiting ≡ true
    → send_after_ms m.ld.config ≤ m.ks.elapsed
    → hold env m ≡ send_repeat env m
unfolding hold
hold-due env m over due =
    let yes : leb (send_after_ms m.ld.config) m.ks.elapsed ≡ true = le→leb _ _ due in
    simp (over, yes)

send_repeat-known :
    (env : Env) (m m1 : Machine) {i : ℕ} {k : KeyInfo}
    → get_elem? keys i ≡ some k
    → m.ks.last_key ≡ pos i
    → broadcast env (name_of m.ld.config k) m.ks.repeat_count k.code m ≡ ok m1
    → send_repeat env m ≡ ok (repeated (send_event env k 2 m1))
unfolding send_repeat key_at
send_repeat-known env m m1 {i} {k} at last e =
    let read : key_at m.ks.last_key ≡ ok k = ap key_at last ∙ rw at refl in
    >>=-of-ok (key_at m.ks.last_key) _ read
    ∙ >>=-of-ok (broadcast env (name_of m.ld.config k) m.ks.repeat_count k.code m) _ e

repeated-keys :
    (m : Machine) {ks : KeyState}
    → m.ks ≡ ks
    → repeated m ≡ record m { ks = record ks { elapsed = 0; repeat_count = ks.repeat_count + 1 } }
repeated-keys m e =
    ap
      (λ (ks : KeyState). record m {
        ks = record ks { elapsed = 0; repeat_count = ks.repeat_count + 1 };
      })
      e

-- In a state that is ready for a packet (a well-formed table with fewer than MAX_CLIENTS clients,
-- all on distinct descriptors, and a release suffix of at most 61 bytes), and with a write() that
-- reports no more bytes than it was offered, in a build with key repeat, while key `i` is held as
-- the last key, its first wait is over, its repeat count is below 2 ^ 31 and the clock does not go
-- back to an earlier second, a round in which no packet arrives and in which the time counted has
-- reached the repeat period ends normally: it sends the line of that key with its repeat count to
-- the clients, each of which receives all of it or is dropped, then, if events are configured and
-- there is a device, sends the device one event, with the event code of that key and the value 2; of
-- the state of the keys, the clock is read, the time is
-- counted anew from 0, and the repeat count is one more than before.
pub round-repeat :
    (env : Env) (m : Machine) (i : ℕ) (k : KeyInfo)
    → WritesAtMost env
    → IsReady m
    → IsHeld env m
    → m.ks.done_waiting ≡ true
    → send_after_ms m.ld.config ≤ elapsed_next env m
    → get_elem? keys i ≡ some k
    → m.ks.last_key ≡ pos i
    → m.ks.repeat_count < 2 ^ 31
    → (m1 : Machine) × (round true env none m
        ≡ ok (record (send_event env k 2 m1) {
          ks = record m.ks {
            cl0 = now env m;
            cl1 = now env m;
            elapsed = 0;
            repeat_count = m.ks.repeat_count + 1;
          };
        }))
      × Fates
          (message k.code m.ks.repeat_count (name_of m.ld.config k))
          (clients m.ld)
          (clients m1.ld)
          m.device.trace
          m1.device.trace
      × ((send_event env k 2 m1).device.trace ≡ with_event env k 2 m1)
unfolding ticked
round-repeat env m i k w v h over due at last small =
    let name = name_of m.ld.config k in
    let fits : length (message k.code m.ks.repeat_count name) < 100 = omega (
      arith,
      length-message-le k.code m.ks.repeat_count name (omega (arith, (key-Fits i at).code_small))
          (omega arith),
      length-name_of m.ld.config i at,
    ) in
    let (m1, e, a) =
      broadcast-Announced env name m.ks.repeat_count k.code (ticked env m) w
        (ticked-IsReady env m v) fits in
    (
      m1,
      round-hold env m h
          ∙ hold-due env (ticked env m) over due
          ∙ send_repeat-known env (ticked env m) m1 at last e
          ∙ ap ok
              (repeated-keys (send_event env k 2 m1) (send_event_keys env k 2 m1 ∙ a.keys_same)),
      Fates-earlier (delivered-ticked env m) a.fates,
      send_event-with_event env k 2 m1,
    )

-- In a build with key repeat, while a key is held, its first wait is over and the clock does not go
-- back to an earlier second, but the thread keeps no index of the key, which is what it does when
-- the code is unknown, a round in which no packet arrives and in which the time counted has reached
-- the repeat period reads outside the key table.
pub round-unknown :
    (env : Env) (m : Machine)
    → IsHeld env m
    → m.ks.done_waiting ≡ true
    → m.ks.last_key ≡ undef
    → send_after_ms m.ld.config ≤ elapsed_next env m
    → round true env none m ≡ stop out_of_bounds
unfolding send_repeat key_at ticked
round-unknown env m h over unknown due =
    round-hold env m h ∙ hold-due env (ticked env m) over due ∙ rw unknown refl
