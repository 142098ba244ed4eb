-- ===== src/Queue/Threads/Wakeups.antt =====
-- The condition variables of q.c: no wakeup is lost.
use bdremote_ng.Prelude.{ℕ, ◌<◌, ◌≡◌, Bool, false, arith, ap, inl, inr}
use bdremote_ng.Family.{total-pos, total-update}
use bdremote_ng.Queue.Inv.{queue_init-IsValid}
use bdremote_ng.Queue.Threads.{
  Pc, wait_not_full, wait_not_empty, System, Reach, begin, next, idle, adding, removing, Step,
  call_add, add_waits, add_done, wake_not_full, signal_empty_lost, signal_empty_wakes, call_remove,
  remove_waits, remove_done, wake_not_empty, time_out, signal_full_lost, signal_full_wakes,
}
use bdremote_ng.Queue.Threads.Served.{
  serves_removal, serves_adding, Served, Served-step, add_section-count, add_section-full,
  rem_section-count, rem_section-empty, unmoved, Served-signal,
}

module _ {A : Type 0} where
  Step-Served :
      {n : ℕ} {s t : System A} → Step n s t → Served n s.queue s.pc → Served n t.queue t.pc
  Step-Served (call_add i x lt e) v =
      Served-step i lt e (unmoved v.valid (omega arith) (omega arith) (λ t. cc) (λ t. cc)) v
  Step-Served (add_waits i x lt e w) v =
      Served-step i lt e
        (record {
          valid = v.valid;
          elements = inr (omega arith);
          room = inl (add_section-full x v.valid w);
          came_for_element = λ t. cc;
          came_for_room = λ x' _. add_section-full x v.valid w;
        })
        v
  Step-Served (add_done i x q lt e w) v =
      let (ok, more) = add_section-count x v.valid w in
      Served-step i lt e
        (record {
          valid = ok;
          elements = inr (omega arith);
          room = inr (omega arith);
          came_for_element = λ t. cc;
          came_for_room = λ x'. cc;
        })
        v
  Step-Served (wake_not_full j x lt e) v =
      Served-step j lt e (unmoved v.valid (omega arith) (omega arith) (λ t. cc) (λ t. cc)) v
  Step-Served {n} {s} (signal_empty_lost i lt e alone) v = record {
    valid = v.valid;
    removers = λ j t jn w. ground (arith, alone j t jn);
    adders = λ j x jn w.
        ground
          (arith, total-update serves_adding n s.pc i idle lt, ap serves_adding e, v.adders j x jn);
  }
  Step-Served (signal_empty_wakes i j t lt jn e w) v =
      Served-signal i j (removing t) lt jn e w (λ h. cc) (omega arith) (omega arith) (λ t. cc)
        (λ x. cc) v
  Step-Served (call_remove i t lt e) v =
      Served-step i lt e (unmoved v.valid (omega arith) (omega arith) (λ t. cc) (λ t. cc)) v
  Step-Served (remove_waits i t lt e w) v =
      Served-step i lt e
        (record {
          valid = v.valid;
          elements = inl (rem_section-empty _ w);
          room = inr (omega arith);
          came_for_element = λ t' _. rem_section-empty _ w;
          came_for_room = λ x. cc;
        })
        v
  Step-Served (remove_done i t o q lt e w) v =
      let (ok, less) = rem_section-count v.valid w in
      Served-step i lt e
        (record {
          valid = ok;
          elements = inr (omega arith);
          room = inr (omega arith);
          came_for_element = λ t'. cc;
          came_for_room = λ x. cc;
        })
        v
  Step-Served (wake_not_empty j t lt e) v =
      Served-step j lt e (unmoved v.valid (omega arith) (omega arith) (λ t. cc) (λ t. cc)) v
  Step-Served (time_out j lt e) v =
      Served-step j lt e (unmoved v.valid (omega arith) (omega arith) (λ t. cc) (λ t. cc)) v
  Step-Served {n} {s} (signal_full_lost i lt e alone) v = record {
    valid = v.valid;
    adders = λ j x jn w. ground (arith, alone j x jn);
    removers = λ j t jn w. ground (
      arith,
      total-update serves_removal n s.pc i idle lt,
      ap serves_removal e,
      v.removers j t jn,
    );
  }
  Step-Served (signal_full_wakes i j x lt jn e w) v =
      Served-signal i j (adding x) lt jn e w (λ h. cc) (omega arith) (omega arith) (λ t. cc)
        (λ x. cc) v

  -- Thread `j` waits for what is there; `serves` counts the threads that will see to it.
  pub data WaitsNeedlessly (s : System A) (j : ℕ) : (Pc A → ℕ) → Type 0 where
    for_element :
        (t : Bool)
        → s.pc j ≡ wait_not_empty t
        → s.queue.empty ≡ false
        → WaitsNeedlessly s j serves_removal
    for_room :
        (x : A)
        → s.pc j ≡ wait_not_full x
        → s.queue.full ≡ false
        → WaitsNeedlessly s j serves_adding

  pub Reach-Served : {n : ℕ} {s : System A} → Reach A n s → Served n s.queue s.pc
  Reach-Served begin = record {
    valid = queue_init-IsValid;
    removers = λ j t jn. cc;
    adders = λ j x jn. cc;
  }
  Reach-Served (next r st) = Step-Served st (Reach-Served r)

  -- No wakeup is lost: in every reachable state in which a thread waits for an element although the
  -- queue is not empty, some thread is about to signal that there is one or to take one itself; and
  -- while a thread waits for room although the queue is not full, some thread is about to signal
  -- that there is room or to add an element itself.
  pub no_lost_wakeup :
      {n : ℕ} {s : System A} {serves : Pc A → ℕ} (j : ℕ)
      → Reach A n s
      → j < n
      → WaitsNeedlessly s j serves
      → (i : ℕ) × (i < n) × (0 < serves (s.pc i))
  no_lost_wakeup {n} {s} j r jn (for_element t w left) =
      let v = Reach-Served r in total-pos serves_removal n s.pc (ground (arith, v.removers j t jn))
  no_lost_wakeup {n} {s} j r jn (for_room x w free) =
      let v = Reach-Served r in total-pos serves_adding n s.pc (ground (arith, v.adders j x jn))
