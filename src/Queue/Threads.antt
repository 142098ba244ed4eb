-- ===== src/Queue/Threads.antt =====
-- Any number of threads that call the functions of q.c on one queue, interleaved in any order.
-- What a thread does while it holds the mutex is one step: no other thread sees the queue then.
-- A condition wait gives the mutex up; a thread that wakes takes it again and repeats its test.
pub mod Order
pub mod Served
pub mod Wakeups
pub mod Advances
pub mod Progress
use bdremote_ng.Prelude.{ℕ, ◌<◌, ◌≡◌, ◌≢◌, Bool, true, Option, none, some, List, [], ◌∷◌, ◌++◌}
use bdremote_ng.Family.{update}
use bdremote_ng.Queue.{Queue, queue_init, add_section, rem_section}

-- Where a thread stands. `timed` tells queueRemNonBlock from queueRemBlock.
pub data Pc (A : Type 0) : Type 0 where
  idle : Pc A
  adding : A → Pc A
  wait_not_full : A → Pc A
  signal_not_empty : Pc A
  removing : (timed : Bool) → Pc A
  wait_not_empty : (timed : Bool) → Pc A
  signal_not_full : Pc A

-- `added` and `removed` record what has gone through the queue, oldest first.
pub record System (A : Type 0) : Type 0 where
  pub queue : Queue A
  pub pc : ℕ → Pc A
  pub added : List A
  pub removed : List (Option A)

abbrev pub goto : {A : Type 0} → System A → ℕ → Pc A → System A
goto s i p = record s { pc = update s.pc i p }

abbrev pub start : (A : Type 0) → System A
start A = record { queue = queue_init; pc = λ i. idle; added = []; removed = [] }

-- A step of one of `n` threads. A signal wakes a waiting thread if there is one; a waiting thread
-- may also wake by itself, and one with a time limit may give up.
pub data Step {A : Type 0} (n : ℕ) (s : System A) : System A → Type 0 where
  call_add : (i : ℕ) (x : A) → i < n → s.pc i ≡ idle → Step n s (goto s i (adding x))
  add_waits :
      (i : ℕ) (x : A)
      → i < n
      → s.pc i ≡ adding x
      → add_section s.queue x ≡ none
      → Step n s (goto s i (wait_not_full x))
  add_done :
      (i : ℕ) (x : A) (q : Queue A)
      → i < n
      → s.pc i ≡ adding x
      → add_section s.queue x ≡ some q
      → Step n s
          (record s { queue = q; pc = update s.pc i signal_not_empty; added = s.added ++ (x ∷ []) })
  wake_not_full :
      (j : ℕ) (x : A) → j < n → s.pc j ≡ wait_not_full x → Step n s (goto s j (adding x))
  signal_empty_lost :
      (i : ℕ)
      → i < n
      → s.pc i ≡ signal_not_empty
      → ((j : ℕ) (t : Bool) → j < n → s.pc j ≢ wait_not_empty t)
      → Step n s (goto s i idle)
  signal_empty_wakes :
      (i j : ℕ) (t : Bool)
      → i < n
      → j < n
      → s.pc i ≡ signal_not_empty
      → s.pc j ≡ wait_not_empty t
      → Step n s (goto (goto s i idle) j (removing t))
  call_remove : (i : ℕ) (t : Bool) → i < n → s.pc i ≡ idle → Step n s (goto s i (removing t))
  remove_waits :
      (i : ℕ) (t : Bool)
      → i < n
      → s.pc i ≡ removing t
      → rem_section s.queue ≡ none
      → Step n s (goto s i (wait_not_empty t))
  remove_done :
      (i : ℕ) (t : Bool) (o : Option A) (q : Queue A)
      → i < n
      → s.pc i ≡ removing t
      → rem_section s.queue ≡ some (o, q)
      → Step n s (record s {
        queue = q;
        pc = update s.pc i signal_not_full;
        removed = s.removed ++ (o ∷ []);
      })
  wake_not_empty :
      (j : ℕ) (t : Bool) → j < n → s.pc j ≡ wait_not_empty t → Step n s (goto s j (removing t))
  time_out : (j : ℕ) → j < n → s.pc j ≡ wait_not_empty true → Step n s (goto s j idle)
  signal_full_lost :
      (i : ℕ)
      → i < n
      → s.pc i ≡ signal_not_full
      → ((j : ℕ) (x : A) → j < n → s.pc j ≢ wait_not_full x)
      → Step n s (goto s i idle)
  signal_full_wakes :
      (i j : ℕ) (x : A)
      → i < n
      → j < n
      → s.pc i ≡ signal_not_full
      → s.pc j ≡ wait_not_full x
      → Step n s (goto (goto s i idle) j (adding x))

pub data Reach (A : Type 0) (n : ℕ) : System A → Type 0 where
  begin : Reach A n (start A)
  next : {s t : System A} → Reach A n s → Step n s t → Reach A n t
