-- ===== src/Queue/Threads/Served.antt =====
-- The condition variables of q.c: who sees to the threads that wait, step by step.
use bdremote_ng.Prelude.{
  ℕ, ◌+◌, ◌<◌, ◌≤◌, ◌≡◌, ◌≢◌, ◌⊎◌, ap, sym, ◌∙◌, Option, none, some, Bool, arith, Bool-cases, inl,
  inr,
}
use bdremote_ng.Family.{update, total, total-update, total-update_two}
use bdremote_ng.Queue.{Queue, queue_size, put, take_out, add_section, rem_section}
use bdremote_ng.Queue.Inv.{count, IsValid, count-put, count-take_out, put-IsValid, take_out-IsValid}
use bdremote_ng.Queue.Threads.{
  Pc, idle, adding, wait_not_full, signal_not_empty, removing, wait_not_empty, signal_not_full,
}

-- A thread that will test the queue as a remover, or signal to one that waits.
abbrev pub serves_removal : {A : Type 0} → Pc A → ℕ
serves_removal signal_not_empty = 1
serves_removal (removing t) = 1
serves_removal _ = 0

abbrev pub serves_adding : {A : Type 0} → Pc A → ℕ
serves_adding signal_not_full = 1
serves_adding (adding x) = 1
serves_adding _ = 0

-- While a thread waits for an element, there are no more elements than threads that will see to
-- them; while one waits for room, no more free slots than threads that will see to those.
pub record Served {A : Type 0} (n : ℕ) (q : Queue A) (pc : ℕ → Pc A) : Type 0 where
  pub valid : IsValid q
  pub removers :
      (j : ℕ) (t : Bool) → j < n → pc j ≡ wait_not_empty t → count q ≤ total serves_removal n pc
  pub adders :
      (j : ℕ) (x : A)
      → j < n
      → pc j ≡ wait_not_full x
      → queue_size ≤ count q + total serves_adding n pc

-- A step of thread `i` from `p` to `p'` that leaves `q'` behind.
pub record Accounted {A : Type 0} (q : Queue A) (p : Pc A) (q' : Queue A) (p' : Pc A) : Type 0 where
  pub valid : IsValid q'
  pub elements : (count q' ≡ 0) ⊎ (count q' + serves_removal p ≤ count q + serves_removal p')
  pub room : (count q' ≡ queue_size) ⊎ (count q + serves_adding p ≤ count q' + serves_adding p')
  pub came_for_element : (t : Bool) → p' ≡ wait_not_empty t → count q' ≡ 0
  pub came_for_room : (x : A) → p' ≡ wait_not_full x → count q' ≡ queue_size

module _ {A : Type 0} where
  pub Served-step :
      {n : ℕ} {q q' : Queue A} {pc : ℕ → Pc A} (i : ℕ) {p p' : Pc A}
      → i < n
      → pc i ≡ p
      → Accounted q p q' p'
      → Served n q pc
      → Served n q' (update pc i p')
  Served-step {n} {q} {q'} {pc} i {p} {p'} lt e a v = record {
    valid = a.valid;
    removers = λ j t jn w. ground (
      arith,
      total-update serves_removal n pc i p' lt,
      ap serves_removal e,
      v.removers j t jn,
      a.came_for_element t,
    );
    adders = λ j x jn w. ground (
      arith,
      total-update serves_adding n pc i p' lt,
      ap serves_adding e,
      v.adders j x jn,
      a.came_for_room x,
    );
  }

  pub add_section-count :
      {q q' : Queue A} (x : A)
      → IsValid q
      → add_section q x ≡ some q'
      → IsValid q' × (count q' ≡ count q + 1)
  unfolding add_section
  add_section-count {q} {q'} x v e = elim (Bool-cases q.full) [
    | inl full ↦ cc (simp full at e)
    | inr free ↦
        let same : put q x ≡ q' = ground arith in
        (rw same at (put-IsValid x v free), rw same at (count-put x v free))
  ]

  pub add_section-full :
      {q : Queue A} (x : A) → IsValid q → add_section q x ≡ none → count q ≡ queue_size
  unfolding add_section
  add_section-full x v e = ground arith

  pub rem_section-count :
      {q q' : Queue A} {o : Option A}
      → IsValid q
      → rem_section q ≡ some (o, q')
      → IsValid q' × (count q' + 1 ≡ count q)
  unfolding rem_section
  rem_section-count {q} {q'} {o} v e = elim (Bool-cases q.empty) [
    | inl empty ↦ cc (simp empty at e)
    | inr left ↦
        let same : take_out q ≡ (o, q') = ground arith in
        (rw same at (take_out-IsValid v left), rw same at (count-take_out v left))
  ]

  pub rem_section-empty : (q : Queue A) → rem_section q ≡ none → count q ≡ 0
  unfolding rem_section
  rem_section-empty q e = ground arith

  -- A step that leaves the queue alone and does not begin a wait.
  pub unmoved :
      {q : Queue A} {p p' : Pc A}
      → IsValid q
      → serves_removal p ≤ serves_removal p'
      → serves_adding p ≤ serves_adding p'
      → ((t : Bool) → p' ≢ wait_not_empty t)
      → ((x : A) → p' ≢ wait_not_full x)
      → Accounted q p q p'
  unmoved v r a ne nf = record {
    valid = v;
    elements = inr (omega arith);
    room = inr (omega arith);
    came_for_element = λ t e. absurd (ne t e);
    came_for_room = λ x e. absurd (nf x e);
  }

  -- A signal: thread `i` has sent it and thread `j` wakes by it.
  pub Served-signal :
      {n : ℕ} {q : Queue A} {pc : ℕ → Pc A} (i j : ℕ) {p r : Pc A} (r' : Pc A)
      → i < n
      → j < n
      → pc i ≡ p
      → pc j ≡ r
      → p ≢ r
      → serves_removal p + serves_removal r ≡ serves_removal r'
      → serves_adding p + serves_adding r ≡ serves_adding r'
      → ((t : Bool) → r' ≢ wait_not_empty t)
      → ((x : A) → r' ≢ wait_not_full x)
      → Served n q pc
      → Served n q (update (update pc i idle) j r')
  Served-signal {n} {q} {pc} i j {p} {r} r' lt jn e w apart rem add ne nf v =
      let ij : i ≢ j = λ same. apart (sym e ∙ ap pc same ∙ w) in
      record {
        valid = v.valid;
        removers = λ k t kn h. ground (
          arith,
          total-update_two serves_removal n pc i j idle r' lt jn ij,
          ap serves_removal e,
          ap serves_removal w,
          v.removers k t kn,
          ne t,
        );
        adders = λ k x kn h. ground (
          arith,
          total-update_two serves_adding n pc i j idle r' lt jn ij,
          ap serves_adding e,
          ap serves_adding w,
          v.adders k x kn,
          nf x,
        );
      }
