-- ===== src/Queue/States.antt =====
-- The states of q.c, up to what a caller of queueAdd and queueRemBlock can tell: their quotient.
use mathlib.Core.List
use mathlib.Core.Quot
use mathlib.Core.Quot.{Quot, Quot-set}
use mathlib.Core.Equiv.{IsEquiv, Iso, iso_to_equiv}
use mathlib.Core.HLevel.{Σ_prop_path}
use native.Mathlib.Bridge.{le_prop}
use bdremote_ng.Fifo
use bdremote_ng.Prelude.{
  ℕ, zero, suc, replicate, ap, sym, ◌∙◌, none, some, ◌+◌, ◌≤◌, ◌<◌, ◌≡◌, refl, arith, false,
  Bool-cases, inl, inr, List, [], ◌∷◌, ◌++◌, length, append-nil, append_assoc, subst, length-append,
}
use bdremote_ng.Queue.{Queue, queue_size, queue_init, put}
use bdremote_ng.Queue.Inv.{count-le}
use bdremote_ng.Queue.Interface.{
  Request, removing, Answer, added, removed, waits, answers, ring_queue, fifo_queue, answers-eq,
}
use bdremote_ng.Queue.Holds.{Holds, Holds-queue_init, Holds-put, count-Holds}

-- a queue with what it holds
abbrev pub State : Type 0 → Type 0
State A = (q : Queue A) × (xs : List A) × Holds q xs

-- Whatever is asked of the two, one call after another, they answer alike.
abbrev pub AnswerAlike : (A : Type 0) → State A → State A → Type 0
AnswerAlike A s t = (rs : List (Request A)) → answers ring_queue rs s.0 ≡ answers ring_queue rs t.0

-- at most QUEUESIZE elements
abbrev pub Bounded : Type 0 → Type 0
Bounded A = (xs : List A) × (length xs ≤ queue_size)

-- the elements among the answers
abbrev drained : {A : Type 0} → List (Answer A) → List A
drained [] = []
drained (added ∷ later) = drained later
drained (removed none ∷ later) = drained later
drained (removed (some x) ∷ later) = x ∷ drained later
drained (waits ∷ later) = drained later

module _ {A : Type 0} where
  drained-fifo :
      (n : ℕ) (xs : List A)
      → length xs ≤ n
      → drained (answers fifo_queue (replicate n removing) xs) ≡ xs
  unfolding answers Fifo.remove
  drained-fifo zero [] le = refl
  drained-fifo zero (x ∷ xs) le = absurd (omega arith)
  drained-fifo (suc n) [] le = drained-fifo n [] (omega arith)
  drained-fifo (suc n) (x ∷ xs) le = ap (◌∷◌ x) (drained-fifo n xs (omega arith))

  Bounded-ext : (a b : Bounded A) → a.0 ≡ b.0 → a ≡ b
  Bounded-ext a b e = Σ_prop_path (λ xs. le_prop) e

  not_full : {q : Queue A} {xs : List A} → Holds q xs → length xs < queue_size → q.full ≡ false
  not_full {q} {xs} h room = elim (Bool-cases q.full) [
    | inl full ↦ absurd (ground (arith, count-Holds h))
    | inr free ↦ free
  ]

  -- queueAdd, once for each element
  unfoldable pub put_all : Queue A → List A → Queue A
  put_all q [] = q
  put_all q (x ∷ xs) = put_all (put q x) xs

  put_all-Holds :
      (q : Queue A) (ys xs : List A)
      → Holds q ys
      → length ys + length xs ≤ queue_size
      → Holds (put_all q xs) (ys ++ xs)
  unfolding put_all
  put_all-Holds q ys [] h le = rw append-nil h
  put_all-Holds q ys (x ∷ xs) h le =
      subst (Holds (put_all (put q x) xs)) (append_assoc ys (x ∷ []) xs) (
        put_all-Holds (put q x) (ys ++ (x ∷ [])) xs (Holds-put x h (not_full h (omega arith)))
          (omega (arith, length-append ys (x ∷ []))))

  length-Holds : {q : Queue A} {xs : List A} → Holds q xs → length xs ≤ queue_size
  length-Holds h = omega (arith, count-Holds h, count-le h.valid)

  -- What a state holds comes out again if it is asked for QUEUESIZE elements.
  drained-held :
      (s : State A) → drained (answers ring_queue (replicate queue_size removing) s.0) ≡ s.1
  drained-held (q, xs, h) =
      ap drained (answers-eq ring_queue fifo_queue (replicate queue_size removing) q xs xs h refl)
      ∙ drained-fifo queue_size xs (length-Holds h)

  AnswerAlike-held : (s t : State A) → AnswerAlike A s t → s.1 ≡ t.1
  AnswerAlike-held s t alike =
      sym (drained-held s) ∙ ap drained (alike (replicate queue_size removing)) ∙ drained-held t

  held-AnswerAlike : (s t : State A) → s.1 ≡ t.1 → AnswerAlike A s t
  held-AnswerAlike (q, xs, h) (r, ys, k) e rs =
      answers-eq ring_queue ring_queue rs q r ys (subst (Holds q) e h) k

  filled : Bounded A → State A
  filled (xs, le) = (
    put_all queue_init xs,
    xs,
    put_all-Holds queue_init [] xs Holds-queue_init (omega (arith, le)),
  )

  Bounded-set : IsSet A → IsSet (Bounded A)
  Bounded-set A_set = hlevel (List.is_set, A_set, le_prop)

  module _ (A_set : IsSet A) where
    -- what a state holds, whatever slots it is in
    pub held : Quot (AnswerAlike A) → Bounded A
    held =
        Quot.lift (Bounded-set A_set) (λ s. (s.1, length-Holds s.2))
          (λ s t e.
            Bounded-ext (s.1, length-Holds s.2) (t.1, length-Holds t.2) (AnswerAlike-held s t e))

    held-filled : Iso (Quot (AnswerAlike A)) (Bounded A)
    unfolding held filled
    held-filled = record {
      fun = held;
      inv = λ b. Quot.mk (filled b);
      rinv = λ b. Bounded-ext (b.0, _) b refl;
      linv =
          Quot.ind (λ s. Quot-set _ _)
            (λ s. Quot.sound (held-AnswerAlike (filled (s.1, length-Holds s.2)) s refl));
    }

    -- The states of the queue of q.c, taken as the same when no sequence of calls of queueAdd and
    -- queueRemBlock is answered differently from them, are just the lists of at most QUEUESIZE
    -- elements: states that answer alike hold the same elements in the same order, states that hold
    -- the same answer alike, and each such list is held by some state.
    pub held-IsEquiv : IsEquiv held
    unfolding held held-filled
    held-IsEquiv = (iso_to_equiv held-filled).1
