-- ===== src/Examples/Queues.antt =====
-- A queue with one reader that waits.
use bdremote_ng.Prelude.{
  ℕ, ◌+◌, ◌*◌, ◌<◌, ◌≤◌, ◌≡◌, ◌↔◌, refl, arith, false, none, some, List, [], ◌∷◌, ◌++◌, map, length,
}
use bdremote_ng.Fifo
use bdremote_ng.Family.{update}
use bdremote_ng.Queue.{
  Queue, queue_init, queue_size, put, take_out, add_section, rem_section, queue_rem_non_block,
  Wakeup, deadline,
}
use bdremote_ng.Queue.Holds.{Holds, Holds-queue_init}
use bdremote_ng.Queue.Refine.{queue_rem_non_block-refines, RemovalMatches, add_section-Holds}
use bdremote_ng.Queue.Interface.{Request, Answer, answers, ring_queue, fifo_queue, ring-answers}
use bdremote_ng.Queue.States.{held, held-IsEquiv}
use mathlib.Core.Equiv.{IsEquiv}
use native.Mathlib.Nat.{ℕ_set}
use bdremote_ng.Queue.Deadline.{deadline_lem}
use bdremote_ng.Queue.Threads.{
  System, start, goto, adding, wait_not_empty, removing, signal_not_empty, Reach, begin, next,
  call_add, call_remove, add_done, remove_waits,
}
use bdremote_ng.Queue.Threads.Order.{removed-prefix-added}
use bdremote_ng.Queue.Threads.Progress.{Progress, threads-Progress}
use bdremote_ng.Queue.Threads.Wakeups.{for_element, no_lost_wakeup}
use bdremote_ng.Queue.Threads.Served.{serves_removal}
use bdremote_ng.Examples.{noon}

abbrev fresh : Queue ℕ
fresh = queue_init

abbrev one : Queue ℕ
one = put fresh 7

put_one : add_section fresh 7 ≡ some one
unfolding add_section queue_init
put_one = refl

one-Holds : Holds one (7 ∷ [])
one-Holds = add_section-Holds 7 Holds-queue_init put_one

-- the first wait ends with an element, which another thread has put there
abbrev waits : List (Wakeup ℕ)
waits = record { timed_out = false; seen = one } ∷ []

queue_rem_non_block-refines_example :
    RemovalMatches (queue_rem_non_block fresh waits) (Fifo.remove_within [] ((false, 7 ∷ []) ∷ []))
queue_rem_non_block-refines_example =
    queue_rem_non_block-refines [] waits ((false, 7 ∷ []) ∷ []) Holds-queue_init
      (refl, one-Holds, tt)

-- Thread 1 waits for an element, then thread 0 puts one in and has not signalled yet.
abbrev reading : System ℕ
reading = goto (start ℕ) 1 (removing false)

abbrev waiting_reader : System ℕ
waiting_reader = goto reading 1 (wait_not_empty false)

abbrev writing : System ℕ
writing = goto waiting_reader 0 (adding 7)

abbrev written : System ℕ
written = record writing { queue = one; pc = update writing.pc 0 signal_not_empty; added = 7 ∷ [] }

nothing_yet : rem_section {A = ℕ} queue_init ≡ none
unfolding rem_section queue_init
nothing_yet = refl

not_empty : one.empty ≡ false
unfolding put
not_empty = refl

written-Reach : Reach ℕ 2 written
written-Reach =
    next
      (next
        (next (next begin (call_remove 1 false (omega arith) refl))
          (remove_waits 1 false (omega arith) refl nothing_yet))
        (call_add 0 7 (omega arith) refl))
      (add_done 0 7 one (omega arith) refl put_one)

removed-prefix-added_example :
    (content : List ℕ) × Holds written.queue content
    × (map some written.added ≡ written.removed ++ map some content)
    × (length content ≤ queue_size)
removed-prefix-added_example = removed-prefix-added written-Reach

no_lost_wakeup_example : (i : ℕ) × (i < 2) × (0 < serves_removal (written.pc i))
no_lost_wakeup_example =
    no_lost_wakeup 1 written-Reach (omega arith) (for_element false refl not_empty)

threads-Progress_example : Progress 2 written
threads-Progress_example = threads-Progress written-Reach

deadline_lem_example :
    ((deadline noon 400).tv_sec * 1000000000 + (deadline noon 400).tv_nsec
      ≡ (43200 * 1000000 + 500000 + 400 * 1000) * 1000)
    × (((deadline noon 400).tv_nsec < 1000000000) ↔ (500000 + 400 * 1000 < 1000000))
deadline_lem_example = deadline_lem noon 400 (omega arith)

-- Two requests of one thread too many.
ring-answers_example :
    answers ring_queue (Request.adding 7 ∷ Request.removing ∷ Request.removing ∷ []) fresh
    ≡ answers fifo_queue (Request.adding 7 ∷ Request.removing ∷ Request.removing ∷ []) []
ring-answers_example = ring-answers (Request.adding 7 ∷ Request.removing ∷ Request.removing ∷ [])

the_answers :
    answers ring_queue (Request.adding 7 ∷ Request.removing ∷ Request.removing ∷ []) fresh
    ≡ Answer.added ∷ Answer.removed (some 7) ∷ Answer.waits ∷ []
unfolding answers add_section rem_section put take_out queue_init
the_answers = refl

held-IsEquiv_example : IsEquiv (held ℕ_set)
held-IsEquiv_example = held-IsEquiv ℕ_set
