-- ===== src/Queue/Interface.antt =====
-- What a user of the queue relies on: operations and their laws. src/q.c fills it, and any other
-- queue that does is used with the same results.
use bdremote_ng.Prelude.{◌≡◌, refl, Option, some, none, List, [], ◌∷◌, ap, ap₂, sym, ◌∙◌}
use bdremote_ng.Fifo
use bdremote_ng.Queue.{Queue, queue_init, add_section, rem_section}
use bdremote_ng.Queue.Holds.{Holds, Holds-queue_init}
use bdremote_ng.Queue.Refine.{AddMatches, RemMatches, add_section-refines, rem_section-refines}

-- Both wait, or both go on, with related results.
pub data Both {A B : Type 0} (R : A → B → Type 0) : Option A → Option B → Type 0 where
  wait : Both R none none
  go_on : {a : A} {b : B} → R a b → Both R (some a) (some b)

-- A bounded queue without waits: `none` is what its caller waits at.
pub record BoundedQueue (A : Type 0) : Type 1 where
  pub State : Type 0
  pub Contents : State → List A → Type 0
  pub start : State
  pub insert : State → A → Option State
  pub extract : State → Option (Option A × State)
  pub start_empty : Contents start []
  pub insert_matches :
      (q : State) (xs : List A) (x : A) → Contents q xs → Both Contents (insert q x) (Fifo.add xs x)
  pub extract_matches :
      (q : State) (xs : List A)
      → Contents q xs
      → Both (λ p r. (p.0 ≡ some r.0) × Contents p.1 r.1) (extract q) (Fifo.remove xs)

-- The calls of one thread, and what each gives: nothing, an element, or a wait.
pub data Request (A : Type 0) : Type 0 where
  adding : A → Request A
  removing : Request A

pub data Answer (A : Type 0) : Type 0 where
  added : Answer A
  removed : Option A → Answer A
  waits : Answer A

module _ {A S : Type 0} where
  abbrev after_insert : (S → List (Answer A)) → S → Option S → List (Answer A)
  after_insert next q none = waits ∷ next q
  after_insert next q (some q') = added ∷ next q'

  abbrev after_extract : (S → List (Answer A)) → S → Option (Option A × S) → List (Answer A)
  after_extract next q none = waits ∷ next q
  after_extract next q (some (o, q')) = removed o ∷ next q'

-- the answers of a queue; a request that waits is given up
unfoldable pub answers :
    {A : Type 0} (Q : BoundedQueue A) → List (Request A) → Q.State → List (Answer A)
answers Q [] q = []
answers Q (adding x ∷ rs) q = after_insert (answers Q rs) q (Q.insert q x)
answers Q (removing ∷ rs) q = after_extract (answers Q rs) q (Q.extract q)

-- The list is a queue, too.
module _ {A : Type 0} where
  abbrev extract_first : Option (A × List A) → Option (Option A × List A)
  extract_first none = none
  extract_first (some (x, xs)) = some (some x, xs)

  pub insert_same : (o : Option (List A)) → Both ◌≡◌ o o
  insert_same none = wait
  insert_same (some xs) = go_on refl

  pub extract_same :
      (o : Option (A × List A)) → Both (λ p r. (p.0 ≡ some r.0) × (p.1 ≡ r.1)) (extract_first o) o
  extract_same none = wait
  extract_same (some r) = go_on (refl, refl)

  abbrev pub fifo_queue : BoundedQueue A
  fifo_queue = record {
    State = List A;
    Contents = λ q xs. q ≡ xs;
    start = [];
    insert = Fifo.add;
    extract = λ q. extract_first (Fifo.remove q);
    start_empty = refl;
    insert_matches = λ q xs x e. rw e (insert_same (Fifo.add xs x));
    extract_matches = λ q xs e. rw e (extract_same (Fifo.remove xs));
  }

  -- src/q.c is one.
  pub insert_both : (o : Option (Queue A)) (l : Option (List A)) → AddMatches o l → Both Holds o l
  insert_both none none m = wait
  insert_both none (some xs) m = elim m [ ]
  insert_both (some q) none m = elim m [ ]
  insert_both (some q) (some xs) m = go_on m

  pub extract_both :
      (o : Option (Option A × Queue A)) (l : Option (A × List A))
      → RemMatches o l
      → Both (λ p r. (p.0 ≡ some r.0) × Holds p.1 r.1) o l
  extract_both none none m = wait
  extract_both none (some r) m = elim m [ ]
  extract_both (some p) none m = elim m [ ]
  extract_both (some p) (some r) m = go_on m

  abbrev pub ring_queue : BoundedQueue A
  ring_queue = record {
    State = Queue A;
    Contents = Holds;
    start = queue_init;
    insert = add_section;
    extract = rem_section;
    start_empty = Holds-queue_init;
    insert_matches =
        λ q xs x h. insert_both (add_section q x) (Fifo.add xs x) (add_section-refines x h);
    extract_matches =
        λ q xs h. extract_both (rem_section q) (Fifo.remove xs) (rem_section-refines xs h);
  }

-- Two queues with the same contents answer alike.
module _ {A : Type 0} (Q R : BoundedQueue A) where
  abbrev Alike : List (Request A) → Type 0
  Alike rs =
      (q : Q.State) (r : R.State) (xs : List A)
      → Q.Contents q xs
      → R.Contents r xs
      → answers Q rs q ≡ answers R rs r

  same_inserted :
      (rs : List (Request A)) (q : Q.State) (r : R.State) (xs : List A) {o : Option Q.State}
      {p : Option R.State} {l : Option (List A)}
      → Alike rs
      → Q.Contents q xs
      → R.Contents r xs
      → Both Q.Contents o l
      → Both R.Contents p l
      → after_insert (answers Q rs) q o ≡ after_insert (answers R rs) r p
  same_inserted rs q r xs later h k wait wait = ap (◌∷◌ waits) (later q r xs h k)
  same_inserted rs q r xs later h k (go_on c) (go_on d) = ap (◌∷◌ added) (later _ _ _ c d)

  same_extracted :
      (rs : List (Request A)) (q : Q.State) (r : R.State) (xs : List A)
      {o : Option (Option A × Q.State)} {p : Option (Option A × R.State)} {l : Option (A × List A)}
      → Alike rs
      → Q.Contents q xs
      → R.Contents r xs
      → Both (λ p r. (p.0 ≡ some r.0) × Q.Contents p.1 r.1) o l
      → Both (λ p r. (p.0 ≡ some r.0) × R.Contents p.1 r.1) p l
      → after_extract (answers Q rs) q o ≡ after_extract (answers R rs) r p
  same_extracted rs q r xs later h k wait wait = ap (◌∷◌ waits) (later q r xs h k)
  same_extracted rs q r xs later h k (go_on c) (go_on d) =
      ap₂ ◌∷◌ (ap removed (c.0 ∙ sym d.0)) (later _ _ _ c.1 d.1)

  pub answers-eq : (rs : List (Request A)) → Alike rs
  unfolding answers
  answers-eq [] q r xs h k = refl
  answers-eq (adding x ∷ rs) q r xs h k =
      same_inserted rs q r xs (answers-eq rs) h k (Q.insert_matches q xs x h)
        (R.insert_matches r xs x k)
  answers-eq (removing ∷ rs) q r xs h k =
      same_extracted rs q r xs (answers-eq rs) h k (Q.extract_matches q xs h)
        (R.extract_matches r xs k)

-- Whatever a thread asks of the queue of q.c, one call after another from queueInit on, it is
-- answered as by the list of at most QUEUESIZE elements: with the same waits, and the same elements.
pub ring-answers :
    {A : Type 0} (rs : List (Request A))
    → answers ring_queue rs queue_init ≡ answers fifo_queue rs []
ring-answers rs = answers-eq ring_queue fifo_queue rs queue_init [] [] Holds-queue_init refl
