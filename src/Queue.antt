-- ===== src/Queue.antt =====
-- src/q.h and src/q.c: the bounded queue between the Bluetooth thread and the LIRC thread.
-- `*_section` is what a function does under the mutex once it holds it: `none` means that it waits
-- on its condition and tries again. The threads around it are in `Queue/Threads`.
pub mod Inv
pub mod Holds
pub mod Refine
pub mod Interface
pub mod States
pub mod Deadline
pub mod Threads
use bdremote_ng.Sys.{Timeval}
use bdremote_ng.Prelude.{
  ℕ, ◌+◌, ◌*◌, Bool, true, false, Option, none, some, List, [], ◌∷◌, ℤ, pos, negsuc, minus_one,
  length, get_or, set, take, replicate, leb, ltb, ◌==◌, if◌then◌else◌, Outcome, ok, stop,
  out_of_bounds, assertion, assert, ◌>>=◌,
}

-- QUEUESIZE
abbrev pub queue_size : ℕ
queue_size = 254

abbrev pub q_ok : ℤ
q_ok = pos 0

abbrev pub q_err : ℤ
q_err = minus_one

-- `queueData`: a copy of the bytes that were handed over, and their number
pub record QueueData : Type 0 where
  pub buffer : List ℕ
  pub size : ℕ

abbrev memcpy : List ℕ → ℕ → Outcome (List ℕ)
memcpy s n = if leb n (length s) then ok (take n s) else stop out_of_bounds

-- The pointer `_s` is `none` if it is NULL. `_size` is an int.
unfoldable pub queue_data_init : Option (List ℕ) → ℤ → Outcome QueueData
queue_data_init none size = stop assertion
queue_data_init (some s) (negsuc n) = stop assertion
queue_data_init (some s) (pos n) = do buffer ← memcpy s n; ok (record { buffer = buffer; size = n })

-- What is left of a block that is handed back: it must not be empty.
unfoldable pub queue_data_de_init : QueueData → Outcome (Unit {0})
queue_data_de_init qd = assert (ltb 0 qd.size)

-- `queue`. A slot is `none` until something is stored in it.
pub record Queue {ℓ} (A : Type ℓ) : Type ℓ where
  pub buf : List (Option A)
  pub head : ℕ
  pub tail : ℕ
  pub full : Bool
  pub empty : Bool

-- `x++; if (x == QUEUESIZE) x = 0;`
abbrev pub next_index : ℕ → ℕ
next_index i = if i + 1 == queue_size then 0 else i + 1

module _ {ℓ} {A : Type ℓ} where
  unfoldable pub queue_init : Queue A
  queue_init = record {
    buf = replicate queue_size none;
    head = 0;
    tail = 0;
    full = false;
    empty = true;
  }

  unfoldable pub put : Queue A → A → Queue A
  put q x = record q {
    buf = set q.buf q.tail (some x);
    tail = next_index q.tail;
    full = if next_index q.tail == q.head then true else q.full;
    empty = false;
  }

  -- what `*_out = buf[head]` and the lines below it do; `none` is a slot never written
  unfoldable pub take_out : Queue A → Option A × Queue A
  take_out q = (
    get_or q.buf q.head none,
    record q {
      head = next_index q.head;
      empty = if next_index q.head == q.tail then true else q.empty;
      full = false;
    },
  )

  -- queueAdd
  unfoldable pub add_section : Queue A → A → Option (Queue A)
  add_section q x = if q.full then none else some (put q x)

  -- queueRemBlock
  unfoldable pub rem_section : Queue A → Option (Option A × Queue A)
  rem_section q = if q.empty then none else some (take_out q)

-- How a `pthread_cond_timedwait` ended, with the queue as the other threads left it.
pub record Wakeup {ℓ} (A : Type ℓ) : Type ℓ where
  pub timed_out : Bool
  pub seen : Queue A

-- The ends of queueRemNonBlock: Q_OK with an element, Q_ERR, or one more wait to make.
pub data Removal {ℓ} (A : Type ℓ) : Type ℓ where
  removed : Option A → Queue A → Removal A
  gave_up : Queue A → Removal A
  waiting : Queue A → Removal A

module _ {ℓ} {A : Type ℓ} where
  removal : Option A × Queue A → Removal A
  removal (x, q) = removed x q

  -- queueRemNonBlock, over the ends of the waits that it makes, in order
  unfoldable pub queue_rem_non_block : Queue A → List (Wakeup A) → Removal A
  unfolding removal
  queue_rem_non_block q [] = if q.empty then waiting q else removal (take_out q)
  queue_rem_non_block q (w ∷ ws) =
      let later = queue_rem_non_block w.seen ws in
      if q.empty then (if w.timed_out then gave_up w.seen else later) else removal (take_out q)

-- The deadline of queueRemNonBlock, `_n` milliseconds after the time of day, for `_n` up to 2147,
-- whose nanoseconds an int holds; the program passes 10.
pub record Timespec : Type 0 where
  pub tv_sec : ℕ
  pub tv_nsec : ℕ

unfoldable pub deadline : Timeval → ℕ → Timespec
deadline tp n = record { tv_sec = tp.tv_sec; tv_nsec = tp.tv_usec * 1000 + n * 1000000 }
