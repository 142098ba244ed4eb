-- ===== src/Queue/Inv.antt =====
-- The representation invariant of `queue`: indices in range, flags that agree with them.
use bdremote_ng.Prelude.{
  ℕ, ◌+◌, ◌-◌, ◌<◌, ◌≤◌, ◌≡◌, refl, true, false, Option, some, none, arith, length, ltb,
  if◌then◌else◌, length-set, length-replicate,
}
use bdremote_ng.Queue.{Queue, queue_size, queue_init, put, take_out}

-- How many elements the indices and the flags say there are.
abbrev pub count {ℓ} : {A : Type ℓ} → Queue A → ℕ
count q =
    if q.empty
    then 0
    else if ltb q.head q.tail
    then q.tail - q.head
    else queue_size + q.tail - q.head

pub record IsValid {ℓ} {A : Type ℓ} (q : Queue A) : Type ℓ where
  pub slots : length q.buf ≡ queue_size
  pub head_in : q.head < queue_size
  pub tail_in : q.tail < queue_size
  pub not_both : q.empty ≡ true → q.full ≡ false
  pub empty_meet : q.empty ≡ true → q.head ≡ q.tail
  pub full_meet : q.full ≡ true → q.head ≡ q.tail
  pub meet : q.head ≡ q.tail → q.empty ≡ false → q.full ≡ true

module _ {ℓ} {A : Type ℓ} where
  pub queue_init-IsValid : IsValid (queue_init {A = A})
  unfolding queue_init
  queue_init-IsValid = record {
    slots = length-replicate {A = Option A} queue_size none;
    head_in = omega arith;
    tail_in = omega arith;
    not_both = λ e. refl;
    empty_meet = λ e. refl;
    full_meet = λ e. refl;
    meet = λ e f. cc;
  }

  pub put-IsValid : {q : Queue A} (x : A) → IsValid q → q.full ≡ false → IsValid (put q x)
  unfolding put
  put-IsValid {q} x v free = ground (arith, length-set q.buf q.tail (some x))

  pub take_out-IsValid : {q : Queue A} → IsValid q → q.empty ≡ false → IsValid (take_out q).1
  unfolding take_out
  take_out-IsValid v some_left = ground arith

  pub count-put : {q : Queue A} (x : A) → IsValid q → q.full ≡ false → count (put q x) ≡ count q + 1
  unfolding put
  count-put x v free = ground arith

  pub count-take_out :
      {q : Queue A} → IsValid q → q.empty ≡ false → count (take_out q).1 + 1 ≡ count q
  unfolding take_out
  count-take_out v some_left = ground arith

  pub count-le : {q : Queue A} → IsValid q → count q ≤ queue_size
  count-le v = ground arith
