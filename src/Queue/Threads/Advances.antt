-- ===== src/Queue/Threads/Advances.antt =====
-- The threads that call q.c: each that is inside a call and does not wait has a step of its own.
use bdremote_ng.Prelude.{
  ℕ, ◌<◌, ◌≤◌, ◌≡◌, ◌≢◌, ◌⊎◌, refl, ap, sym, ◌∙◌, Option, Bool, true, arith, Bool-cases, [], ◌∷◌,
  ◌++◌, inl, inr,
}
use native.Mathlib.Decide.{dec_lt}
use bdremote_ng.Family.{update, total, total-pos, weight-le-total}
use bdremote_ng.Queue.{put, take_out, add_section, rem_section}
use bdremote_ng.Queue.Threads.{
  Pc, idle, adding, wait_not_full, signal_not_empty, removing, wait_not_empty, signal_not_full,
  System, Step, add_done, add_waits, remove_waits, signal_empty_lost, signal_empty_wakes,
  remove_done, signal_full_lost, signal_full_wakes,
}
use bdremote_ng.Queue.Threads.Served.{serves_removal, serves_adding}

abbrev pub awaits_element : {A : Type 0} → Pc A → ℕ
awaits_element (wait_not_empty t) = 1
awaits_element _ = 0

abbrev awaits_room : {A : Type 0} → Pc A → ℕ
awaits_room (wait_not_full x) = 1
awaits_room _ = 0

-- a thread that is inside a call and does not wait
abbrev pub runs : {A : Type 0} → Pc A → ℕ
runs idle = 0
runs (wait_not_empty t) = 0
runs (wait_not_full x) = 0
runs _ = 1

-- Thread `i` has a step of its own: it comes back from its signal, an element passes, or it begins
-- to wait since the queue is full or empty.
pub data Advances {A : Type 0} (n : ℕ) (s : System A) (i : ℕ) : Type 0 where
  signals :
      {s' : System A}
      → (s.pc i ≡ signal_not_empty) ⊎ (s.pc i ≡ signal_not_full)
      → Step n s s'
      → s'.pc i ≡ idle
      → Advances n s i
  adds :
      {s' : System A} (x : A)
      → s.pc i ≡ adding x
      → Step n s s'
      → s'.added ≡ s.added ++ (x ∷ [])
      → Advances n s i
  begins_wait_full :
      {s' : System A} (x : A)
      → s.pc i ≡ adding x
      → s.queue.full ≡ true
      → Step n s s'
      → s'.pc i ≡ wait_not_full x
      → Advances n s i
  removes :
      {s' : System A} (t : Bool) (o : Option A)
      → s.pc i ≡ removing t
      → Step n s s'
      → s'.removed ≡ s.removed ++ (o ∷ [])
      → Advances n s i
  begins_wait_empty :
      {s' : System A} (t : Bool)
      → s.pc i ≡ removing t
      → s.queue.empty ≡ true
      → Step n s s'
      → s'.pc i ≡ wait_not_empty t
      → Advances n s i

update_at : {B : Type 0} (f : ℕ → B) (i : ℕ) (b : B) → update f i b i ≡ b
update_at f i b = ground arith

update_beside :
    {B : Type 0} (f : ℕ → B) (i j : ℕ) (a b : B) → i ≢ j → update (update f i a) j b i ≡ a
update_beside f i j a b ne = ground arith

module _ {A : Type 0} {n : ℕ} {s : System A} (i : ℕ) (lt : i < n) where
  element_signal : s.pc i ≡ signal_not_empty → Advances n s i
  element_signal e = elim (dec_lt 0 (total awaits_element n s.pc)) [
    | yes some_wait ↦
        let (j, jn, w) = total-pos awaits_element n s.pc some_wait in wakes j jn (s.pc j) refl w
    | no nobody ↦
        signals (inl e)
          (signal_empty_lost i lt e (λ j t jn w.
            ground (arith, weight-le-total awaits_element n s.pc j jn, ap awaits_element w)))
          (update_at s.pc i idle)
  ]
    where
      wakes :
          (j : ℕ) → j < n → (p : Pc A) → s.pc j ≡ p → 0 < awaits_element (s.pc j) → Advances n s i
      wakes j jn (wait_not_empty t) w h =
          signals (inl e) (signal_empty_wakes i j t lt jn e w)
            (update_beside s.pc i j idle (removing t) (λ same. cc (sym e ∙ ap s.pc same ∙ w)))
      wakes j jn _ w h = absurd (omega (arith, ap awaits_element w))

  room_signal : s.pc i ≡ signal_not_full → Advances n s i
  room_signal e = elim (dec_lt 0 (total awaits_room n s.pc)) [
    | yes some_wait ↦
        let (j, jn, w) = total-pos awaits_room n s.pc some_wait in wakes j jn (s.pc j) refl w
    | no nobody ↦
        signals (inr e)
          (signal_full_lost i lt e
            (λ j x jn w. ground (arith, weight-le-total awaits_room n s.pc j jn, ap awaits_room w)))
          (update_at s.pc i idle)
  ]
    where
      wakes : (j : ℕ) → j < n → (p : Pc A) → s.pc j ≡ p → 0 < awaits_room (s.pc j) → Advances n s i
      wakes j jn (wait_not_full x) w h =
          signals (inr e) (signal_full_wakes i j x lt jn e w)
            (update_beside s.pc i j idle (adding x) (λ same. cc (sym e ∙ ap s.pc same ∙ w)))
      wakes j jn _ w h = absurd (omega (arith, ap awaits_room w))

  -- Each thread that is inside a call and does not wait advances.
  pub runs-Advances : (p : Pc A) → s.pc i ≡ p → 0 < runs p → Advances n s i
  unfolding add_section rem_section
  runs-Advances signal_not_empty e h = element_signal e
  runs-Advances signal_not_full e h = room_signal e
  runs-Advances (adding x) e h = elim (Bool-cases s.queue.full) [
    | inl full ↦
        begins_wait_full x e full (add_waits i x lt e (simp full refl))
          (update_at s.pc i (wait_not_full x))
    | inr free ↦ adds x e (add_done i x (put s.queue x) lt e (simp free refl)) refl
  ]
  runs-Advances (removing t) e h = elim (Bool-cases s.queue.empty) [
    | inl empty ↦
        begins_wait_empty t e empty (remove_waits i t lt e (simp empty refl))
          (update_at s.pc i (wait_not_empty t))
    | inr left ↦
        removes t (take_out s.queue).0 e
          (remove_done i t (take_out s.queue).0 (take_out s.queue).1 lt e (simp left refl)) refl
  ]
  runs-Advances _ e h = absurd (omega arith)

pub serves_removal-le-runs : {A : Type 0} (p : Pc A) → serves_removal p ≤ runs p
serves_removal-le-runs idle = omega arith
serves_removal-le-runs (adding x) = omega arith
serves_removal-le-runs (wait_not_full x) = omega arith
serves_removal-le-runs signal_not_empty = omega arith
serves_removal-le-runs (removing t) = omega arith
serves_removal-le-runs (wait_not_empty t) = omega arith
serves_removal-le-runs signal_not_full = omega arith

pub serves_adding-le-runs : {A : Type 0} (p : Pc A) → serves_adding p ≤ runs p
serves_adding-le-runs idle = omega arith
serves_adding-le-runs (adding x) = omega arith
serves_adding-le-runs (wait_not_full x) = omega arith
serves_adding-le-runs signal_not_empty = omega arith
serves_adding-le-runs (removing t) = omega arith
serves_adding-le-runs (wait_not_empty t) = omega arith
serves_adding-le-runs signal_not_full = omega arith
