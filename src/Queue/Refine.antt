-- ===== src/Queue/Refine.antt =====
-- q.c against a first-in first-out list of at most QUEUESIZE elements.
use bdremote_ng.Prelude.{
  ◌≡◌, refl, Bool, true, false, Option, some, none, List, [], ◌∷◌, ◌++◌, arith, length, ◌==◌,
  Bool-cases, inl, inr,
}
use bdremote_ng.Fifo
use bdremote_ng.Fifo.{Taken, taken, expired, blocked}
use bdremote_ng.Queue.{
  Queue, put, take_out, add_section, rem_section, Removal, removed, gave_up, waiting, Wakeup,
  queue_rem_non_block,
}
use bdremote_ng.Queue.Holds.{
  Holds, count-Holds, Holds-put, not-empty-Holds, take_out-Holds, Holds-empty,
}

-- A section of q.c and an operation of `Fifo` end alike: both wait, or both go on, and then the
-- queue holds the list.
abbrev pub AddMatches : {A : Type 0} → Option (Queue A) → Option (List A) → Type 0
AddMatches none none = Unit
AddMatches none (some xs) = ⊥
AddMatches (some q) none = ⊥
AddMatches (some q) (some xs) = Holds q xs

abbrev pub RemMatches : {A : Type 0} → Option (Option A × Queue A) → Option (A × List A) → Type 0
RemMatches none none = Unit
RemMatches none (some r) = ⊥
RemMatches (some p) none = ⊥
RemMatches (some p) (some r) = (p.0 ≡ some r.0) × Holds p.1 r.1

abbrev pub RemovalMatches : {A : Type 0} → Removal A → Taken A → Type 0
RemovalMatches (removed o q) (taken x xs) = (o ≡ some x) × Holds q xs
RemovalMatches (gave_up q) (expired xs) = Holds q xs
RemovalMatches (waiting q) blocked = Holds q []
RemovalMatches _ _ = ⊥

-- The ends of the waits, seen as arrays and as lists.
abbrev pub WaitsMatch : {A : Type 0} → List (Wakeup A) → List (Bool × List A) → Type 0
WaitsMatch [] [] = Unit
WaitsMatch [] (v ∷ vs) = ⊥
WaitsMatch (w ∷ ws) [] = ⊥
WaitsMatch (w ∷ ws) (v ∷ vs) = (w.timed_out ≡ v.0) × Holds w.seen v.1 × WaitsMatch ws vs

module _ {A : Type 0} where
  -- A queue that queueAdd is called on, and that holds `xs`, takes the element exactly when `xs`
  -- has fewer than QUEUESIZE elements, and then holds it behind the others.
  pub add_section-refines :
      {q : Queue A} {xs : List A} (x : A)
      → Holds q xs
      → AddMatches (add_section q x) (Fifo.add xs x)
  unfolding add_section Fifo.add
  add_section-refines {q} {xs} x h = elim (Bool-cases q.full) [
    | inl full ↦
        let e : (length xs == Fifo.capacity) ≡ true = ground (arith, count-Holds h) in
        rw (full, e) tt
    | inr free ↦
        let e : (length xs == Fifo.capacity) ≡ false = ground (arith, count-Holds h) in
        simp (free, e) (Holds-put x h free)
  ]

  -- queueRemBlock waits exactly when the queue holds nothing; else it hands out the oldest element,
  -- from a slot that was written, and the queue holds the rest.
  pub rem_section-refines :
      {q : Queue A} (xs : List A) → Holds q xs → RemMatches (rem_section q) (Fifo.remove xs)
  unfolding rem_section Fifo.remove
  rem_section-refines [] h = rw (Holds-empty h) tt
  rem_section-refines (x ∷ xs) h = simp (not-empty-Holds h) (take_out-Holds h)

  -- queueRemNonBlock, whatever the other threads do during its waits, hands out the oldest element
  -- of the queue as it then finds it, or gives up at the first wait that times out on an empty
  -- queue and then takes nothing.
  pub queue_rem_non_block-refines :
      {q : Queue A} (xs : List A) (ws : List (Wakeup A)) (vs : List (Bool × List A))
      → Holds q xs
      → WaitsMatch ws vs
      → RemovalMatches (queue_rem_non_block q ws) (Fifo.remove_within xs vs)
  unfolding queue_rem_non_block Fifo.remove_within
  queue_rem_non_block-refines [] [] [] h m = simp (Holds-empty h) h
  queue_rem_non_block-refines [] [] (v ∷ vs) h m = elim m [ ]
  queue_rem_non_block-refines [] (w ∷ ws) [] h m = elim m [ ]
  queue_rem_non_block-refines [] (w ∷ ws) ((true, ys) ∷ vs) h m = simp (Holds-empty h, m.0) m.1
  queue_rem_non_block-refines {q = q} [] (w ∷ ws) ((false, ys) ∷ vs) h m =
      simp (Holds-empty h, m.0) (queue_rem_non_block-refines {q = w.seen} ys ws vs m.1 m.2)
  queue_rem_non_block-refines (x ∷ xs) [] vs h m = simp (not-empty-Holds h) (take_out-Holds h)
  queue_rem_non_block-refines (x ∷ xs) (w ∷ ws) vs h m = simp (not-empty-Holds h) (take_out-Holds h)

  -- A thread that got through its section finds the queue changed as the list is.
  pub add_section-Holds :
      {q q' : Queue A} {xs : List A} (x : A)
      → Holds q xs
      → add_section q x ≡ some q'
      → Holds q' (xs ++ (x ∷ []))
  unfolding add_section
  add_section-Holds {q} {q'} {xs} x h e = elim (Bool-cases q.full) [
    | inl full ↦ cc (simp full at e)
    | inr free ↦ let same : put q x ≡ q' = ground arith in rw same at (Holds-put x h free)
  ]

  pub rem_section-Holds :
      {q q' : Queue A} (xs : List A) {o : Option A}
      → Holds q xs
      → rem_section q ≡ some (o, q')
      → (x : A) × (rest : List A) × (xs ≡ x ∷ rest) × (o ≡ some x) × Holds q' rest
  unfolding rem_section
  rem_section-Holds [] h e = cc (simp (Holds-empty h) at e)
  rem_section-Holds {q} {q'} (x ∷ xs) {o} h e =
      let same : take_out q ≡ (o, q') = ground (arith, not-empty-Holds h) in
      (x, xs, refl, rw same at (take_out-Holds h).0, rw same at (take_out-Holds h).1)
