-- ===== src/Lirc/Remote/Clock.antt =====
-- src/lirc_util.c: initTime and updateTime.
use bdremote_ng.Prelude.{
  ℕ, ◌+◌, ◌-◌, ◌*◌, ◌/◌, ◌%◌, ◌^◌, ◌≤◌, ◌<◌, ◌≡◌, arith, ltb, leb, ◌==◌, if◌then◌else◌, Outcome, ok,
  assert, ◌>>◌,
}
use bdremote_ng.Sys.{Env, Trace, Timeval, perform, get_time_of_day}
use bdremote_ng.Lirc.Remote.{KeyState}

unfoldable pub init_time : Env → KeyState → Trace → KeyState × Trace
init_time env ks t = (
  record ks { cl0 = env.clock t; cl1 = env.clock t; elapsed = 0 },
  (perform env get_time_of_day t).1,
)

-- The milliseconds that updateTime counts between two times: those of the fields tv_usec.
abbrev pub counted_ms : Timeval → Timeval → ℕ
counted_ms a b = if ltb a.tv_usec b.tv_usec then (b.tv_usec - a.tv_usec) / 1000 else 0

-- updateTime; the sum is an unsigned long of 64 bits
unfoldable pub update_time : Env → KeyState → Trace → Outcome (KeyState × Trace)
update_time env ks t =
    let now = env.clock t in
    assert (leb ks.cl0.tv_sec now.tv_sec)
    >> ok (
      record ks { cl1 = now; cl0 = now; elapsed = (ks.elapsed + counted_ms ks.cl0 now) % 2 ^ 64 },
      (perform env get_time_of_day t).1,
    )

-- microseconds since the epoch
abbrev pub micros : Timeval → ℕ
micros a = a.tv_sec * 1000000 + a.tv_usec

-- For two times in order and less than a second apart, updateTime counts the whole milliseconds
-- that have passed if both lie in the same second; if not, it counts nothing at all: the elapsed
-- time is lost.
pub counted_ms_lem :
    (a b : Timeval)
    → a.tv_usec < 1000000
    → b.tv_usec < 1000000
    → micros a ≤ micros b
    → micros b < micros a + 1000000
    → counted_ms a b ≡ (if a.tv_sec == b.tv_sec then (micros b - micros a) / 1000 else 0)
counted_ms_lem a b ha hb order near = ground arith

-- What is counted is never more than what has passed.
pub counted_ms-le :
    (a b : Timeval) → a.tv_sec ≤ b.tv_sec → counted_ms a b * 1000 ≤ micros b - micros a
counted_ms-le a b order = ground arith
