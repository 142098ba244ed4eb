-- ===== src/Queue/Threads/Order.antt =====
-- Nothing is lost, invented or reordered between the threads that add and those that remove.
use mathlib.Core.List.{map-append}
use bdremote_ng.Prelude.{
  ℕ, ◌≤◌, ◌≡◌, refl, some, List, [], ◌∷◌, ◌++◌, map, append_assoc, arith, length,
}
use bdremote_ng.Queue.{queue_size}
use bdremote_ng.Queue.Inv.{count-le}
use bdremote_ng.Queue.Holds.{Holds, Holds-queue_init, count-Holds}
use bdremote_ng.Queue.Refine.{add_section-Holds, rem_section-Holds}
use bdremote_ng.Queue.Threads.{System, Step, Reach, begin, next, call_add, add_done, remove_done}

-- What is in the queue is what was added and not yet removed, oldest first.
pub record InOrder {A : Type 0} (s : System A) : Type 0 where
  pub content : List A
  pub holds : Holds s.queue content
  pub ordered : map some s.added ≡ s.removed ++ map some content

module _ {A : Type 0} where
  Step-InOrder : {n : ℕ} {s t : System A} → Step n s t → InOrder s → InOrder t
  Step-InOrder {s} (add_done i x q lt at_add e) v = record {
    content = v.content ++ (x ∷ []);
    holds = add_section-Holds x v.holds e;
    ordered = simp (map-append, append_assoc, v.ordered);
  }
  Step-InOrder {s} (remove_done i t o q lt at_rem e) v =
      let (x, rest, split, out, kept) = rem_section-Holds v.content v.holds e in
      record { content = rest; holds = kept; ordered = simp (append_assoc, v.ordered, split, out) }
  Step-InOrder (call_add i x lt e) v = record {
    content = v.content;
    holds = v.holds;
    ordered = v.ordered;
  }
  Step-InOrder _ v = record { content = v.content; holds = v.holds; ordered = v.ordered }

  Reach-InOrder : {n : ℕ} {s : System A} → Reach A n s → InOrder s
  Reach-InOrder begin = record { content = []; holds = Holds-queue_init; ordered = refl }
  Reach-InOrder (next r st) = Step-InOrder st (Reach-InOrder r)

  -- In every state that the threads reach from the empty queue, whatever the interleaving, what has
  -- been removed is a prefix of what has been added, in the same order; the queue holds exactly the
  -- rest, and never more than QUEUESIZE elements.
  pub removed-prefix-added :
      {n : ℕ} {s : System A}
      → Reach A n s
      → (content : List A) × Holds s.queue content
        × (map some s.added ≡ s.removed ++ map some content)
        × (length content ≤ queue_size)
  removed-prefix-added r =
      let v = Reach-InOrder r in
      (v.content, v.holds, v.ordered, omega (arith, count-Holds v.holds, count-le v.holds.valid))
