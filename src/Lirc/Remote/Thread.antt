-- ===== src/Lirc/Remote/Thread.antt =====
-- src/lirc_thr.c: the loop of lircThread. `enable_repeat` is the build option ENABLE_REPEAT.
pub mod Safety
pub mod Rounds
pub mod Rhythm
pub mod Unknown
pub mod Sessions
pub mod Repeats
pub mod KnownKeys
pub mod Holding
use bdremote_ng.Prelude.{
  ℕ, zero, suc, ◌+◌, ◌/◌, ℤ, pos, negsuc, Bool, true, false, Option, none, some, List, [], ◌∷◌, leb,
  if◌then◌else◌, Outcome, ok, ◌>>=◌, ◌>>◌,
}
use bdremote_ng.Sys.{Env}
use bdremote_ng.Keys.{undef}
use bdremote_ng.Queue.{QueueData, queue_data_de_init}
use bdremote_ng.Config.{Configuration}
use bdremote_ng.EventOut.{Device}
use bdremote_ng.Lirc.{LircData}
use bdremote_ng.Lirc.Remote.{KeyState, Machine, key_at, name_of, broadcast, send_event, handle_key}
use bdremote_ng.Lirc.Remote.Clock.{init_time, update_time}

-- the wait before a key repeats, in milliseconds, from the option repeat_delay
unfoldable pub delay_from : ℤ → ℕ
delay_from (pos zero) = 100
delay_from (pos (suc n)) = suc n
delay_from (negsuc n) = 100

-- `rate_delay`
unfoldable pub rate_delay : Configuration → ℕ
unfolding delay_from
rate_delay c = delay_from c.repeat_delay

unfoldable pub period_from : ℤ → ℕ
period_from (pos zero) = 100
period_from (pos (suc n)) = 1000 / suc n
period_from (negsuc n) = 100

-- `sendAfterMs`
unfoldable pub send_after_ms : Configuration → ℕ
unfolding period_from
send_after_ms c = period_from c.repeat_rate

-- the state of the keys when the thread starts; what initTime and the loop set later is any value
unfoldable pub start_keys : Env → KeyState → Machine → Machine
start_keys env before m =
    let (ks, t) =
      init_time env (record before { key_down = false; last_key = undef }) m.device.trace in
    record m {
      ks = record ks { repeat_count = 0; done_waiting = false };
      device = record m.device { trace = t };
    }

-- after a packet: initTime, and the repeat starts again
unfoldable pub restart : Env → Machine → Machine
restart env m =
    let (ks, t) = init_time env m.ks m.device.trace in
    record m {
      ks = record ks { repeat_count = 0; done_waiting = false };
      device = record m.device { trace = t };
    }

unfoldable pub take_packet : Bool → Env → Option QueueData → Machine → Outcome Machine
take_packet enable_repeat env none m = ok m
take_packet enable_repeat env (some qd) m =
    handle_key env qd.buffer qd.size m
    >>= (λ m1. queue_data_de_init qd >> ok (if enable_repeat then restart env m1 else m1))

abbrev pub repeated : Machine → Machine
repeated m = record m { ks = record m.ks { elapsed = 0; repeat_count = m.ks.repeat_count + 1 } }

-- one repeated key press
unfoldable pub send_repeat : Env → Machine → Outcome Machine
send_repeat env m = key_at m.ks.last_key >>= (λ k.
    broadcast env (name_of m.ld.config k) m.ks.repeat_count k.code m
    >>= (λ m1. ok (repeated (send_event env k 2 m1))))

-- what happens to a key that is held, after updateTime
unfoldable pub hold : Env → Machine → Outcome Machine
hold env m =
    if m.ks.done_waiting
    then (if leb (send_after_ms m.ld.config) m.ks.elapsed then send_repeat env m else ok m)
    else ok (
        if leb (rate_delay m.ld.config) m.ks.elapsed
        then record m { ks = record m.ks { done_waiting = true; elapsed = 0 } }
        else m)

unfoldable pub timed : Env → Machine → Outcome Machine
timed env m =
    update_time env m.ks m.device.trace
    >>= (λ p. ok (record m { ks = p.0; device = record m.device { trace = p.1 } }))

unfoldable pub repeat_key : Bool → Env → Machine → Outcome Machine
repeat_key false env m = ok m
repeat_key true env m = if m.ks.key_down then timed env m >>= hold env else ok m

-- one round of the loop, with what queueRemNonBlock handed out: `none` is Q_ERR
unfoldable pub round : Bool → Env → Option QueueData → Machine → Outcome Machine
round enable_repeat env qd m = take_packet enable_repeat env qd m >>= repeat_key enable_repeat env

-- the rounds up to the end of the thread
unfoldable pub rounds : Bool → Env → List (Option QueueData) → Machine → Outcome Machine
rounds enable_repeat env [] m = ok m
rounds enable_repeat env (qd ∷ qds) m =
    round enable_repeat env qd m >>= rounds enable_repeat env qds
