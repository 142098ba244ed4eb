-- ===== src/Queue/Threads/Progress.antt =====
-- The condition variables of q.c: who has a step in a state of the threads.
use bdremote_ng.Prelude.{ℕ, ◌<◌, ◌≡◌, ◌⊎◌, refl, ap, Bool, true, arith, Bool-cases, inl, inr}
use native.Mathlib.Decide.{dec_lt}
use bdremote_ng.Family.{total, total-pos, weight-le-total}
use bdremote_ng.Queue.Threads.{Pc, idle, wait_not_full, wait_not_empty, System, Reach}
use bdremote_ng.Queue.Threads.Wakeups.{Reach-Served, for_element, for_room, no_lost_wakeup}
use bdremote_ng.Queue.Threads.Advances.{
  awaits_element, runs, Advances, runs-Advances, serves_removal-le-runs, serves_adding-le-runs,
}

-- What there is to say of a state: a thread advances, or no thread is inside a call but to wait for
-- the same, an element of the empty queue or room in the full one.
pub data Progress {A : Type 0} (n : ℕ) (s : System A) : Type 0 where
  moves : (i : ℕ) → i < n → Advances n s i → Progress n s
  rests_empty :
      ((j : ℕ)
        → j < n
        → (s.pc j ≡ idle) ⊎ ((t : Bool) × (s.pc j ≡ wait_not_empty t) × (s.queue.empty ≡ true)))
      → Progress n s
  rests_full :
      ((j : ℕ)
        → j < n
        → (s.pc j ≡ idle) ⊎ ((x : A) × (s.pc j ≡ wait_not_full x) × (s.queue.full ≡ true)))
      → Progress n s

-- In a reachable state in which no thread runs, the threads rest.
module _ {A : Type 0} {n : ℕ} {s : System A} (r : Reach A n s) (still : total runs n s.pc ≡ 0) where
  no_runner : (i : ℕ) → i < n → runs (s.pc i) ≡ 0
  no_runner i lt = omega (arith, still, weight-le-total runs n s.pc i lt)

  waits_empty : (j : ℕ) (t : Bool) → j < n → s.pc j ≡ wait_not_empty t → s.queue.empty ≡ true
  waits_empty j t jn w = elim (Bool-cases s.queue.empty) [
    | inl empty ↦ empty
    | inr left ↦
        let (i, lt, h) = no_lost_wakeup j r jn (for_element t w left) in
        absurd (omega (arith, no_runner i lt, serves_removal-le-runs (s.pc i)))
  ]

  waits_full : (k : ℕ) (x : A) → k < n → s.pc k ≡ wait_not_full x → s.queue.full ≡ true
  waits_full k x kn w = elim (Bool-cases s.queue.full) [
    | inl full ↦ full
    | inr free ↦
        let (i, lt, h) = no_lost_wakeup k r kn (for_room x w free) in
        absurd (omega (arith, no_runner i lt, serves_adding-le-runs (s.pc i)))
  ]

  -- A thread beside one that waits for an element.
  at_empty :
      s.queue.empty ≡ true
      → (j : ℕ) (p : Pc A) → j < n
      → s.pc j ≡ p
      → (s.pc j ≡ idle) ⊎ ((t : Bool) × (s.pc j ≡ wait_not_empty t) × (s.queue.empty ≡ true))
  at_empty empty j idle jn e = inl e
  at_empty empty j (wait_not_empty t) jn e = inr (t, e, empty)
  at_empty empty j (wait_not_full x) jn e =
      let full = waits_full j x jn e in
      let free = (Reach-Served r).valid.not_both empty in absurd (ground arith)
  at_empty empty j _ jn e = absurd (omega (arith, no_runner j jn, ap runs e))

  -- A thread where none waits for an element.
  at_full :
      total awaits_element n s.pc ≡ 0
      → (j : ℕ) (p : Pc A) → j < n
      → s.pc j ≡ p
      → (s.pc j ≡ idle) ⊎ ((x : A) × (s.pc j ≡ wait_not_full x) × (s.queue.full ≡ true))
  at_full none_wait j idle jn e = inl e
  at_full none_wait j (wait_not_full x) jn e = inr (x, e, waits_full j x jn e)
  at_full none_wait j (wait_not_empty t) jn e =
      absurd
        (omega (arith, none_wait, weight-le-total awaits_element n s.pc j jn, ap awaits_element e))
  at_full none_wait j _ jn e = absurd (omega (arith, no_runner j jn, ap runs e))

  waiter : (p : Pc A) → 0 < awaits_element p → (t : Bool) × (p ≡ wait_not_empty t)
  waiter (wait_not_empty t) h = (t, refl)
  waiter _ h = absurd (omega arith)

  rest : Progress n s
  rest = elim (dec_lt 0 (total awaits_element n s.pc)) [
    | yes some_wait ↦
        let (j, jn, w) = total-pos awaits_element n s.pc some_wait in
        let (t, e) = waiter (s.pc j) w in
        rests_empty (λ k kn. at_empty (waits_empty j t jn e) k (s.pc k) kn refl)
    | no nobody ↦ rests_full (λ k kn. at_full (omega arith) k (s.pc k) kn refl)
  ]

-- The threads never block each other: in every reachable state, some thread has a step of its own,
-- by which it comes back from a signal, passes an element, or begins to wait because the queue is
-- full or empty; or every thread that is inside a call waits for an element, and the queue is empty;
-- or every such thread waits for room, and the queue is full.
pub threads-Progress : {A : Type 0} {n : ℕ} {s : System A} → Reach A n s → Progress n s
threads-Progress {n} {s} r = elim (dec_lt 0 (total runs n s.pc)) [
  | yes some_run ↦
      let (i, lt, h) = total-pos runs n s.pc some_run in
      moves i lt (runs-Advances i lt (s.pc i) refl h)
  | no nobody ↦ rest r (omega arith)
]
