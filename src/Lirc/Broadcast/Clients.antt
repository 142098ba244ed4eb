-- ===== src/Lirc/Broadcast/Clients.antt =====
-- The loop of broadcastToLirc, which removes clients from the table that it runs over, against one
-- pass over the list of clients.
use bdremote_ng.Prelude.{
  ℕ, zero, suc, ◌+◌, ◌≤◌, ◌≡◌, refl, ap, sym, ◌∙◌, arith, ℤ, pos, minus_one, true, false, List, [],
  ◌∷◌, ◌++◌, get_or, length, ltb, ltb_ℤ, Bool-cases, inl, inr, Outcome, ok, length-append,
  length-take, append_assoc,
}
use bdremote_ng.Sys.{Env, Trace, WritesAtMost}
use bdremote_ng.Lirc.{LircData}
use bdremote_ng.Lirc.Socket.{write_socket}
use bdremote_ng.Lirc.Socket.Whole.{Wrote, whole, partial, write_socket-Wrote}
use bdremote_ng.Lirc.Clients.{clients, remove_client, hang_up}
use bdremote_ng.Lirc.Clients.Table.{
  erase_first, clients-remove_client, remove_client-hang_up, SameBesideTable,
  remove_client-SameBesideTable, SameBesideTable-trans,
}
use bdremote_ng.Lirc.Clients.Bounds.{IsTable, remove_client-IsTable}
use bdremote_ng.Lirc.Broadcast.{after_write, broadcast_loop}
use bdremote_ng.Lirc.Broadcast.Pass.{
  Distinct, send_each, get_or-append, get_or-take, erase_first-append, Apart, Apart-snoc,
}

-- How the loop came out: the table holds `done` and then the clients that `send_each` kept.
pub data Passed (msg : List ℕ) (env : Env) (done todo : List ℤ) (d0 : LircData) (t : Trace)
    : Outcome (LircData × Trace) → Type 0 where
  passed :
      {d' : LircData} {t' : Trace} (kept : List ℤ)
      → send_each env msg todo t ≡ ok (kept, t')
      → clients d' ≡ done ++ kept
      → IsTable d'
      → SameBesideTable d0 d'
      → Passed msg env done todo d0 t (ok (d', t'))

module _ (env : Env) (w : WritesAtMost env) (msg : List ℕ) where
  -- What is known at the head of the loop, with `done` passed and `todo` to come.
  record AtHead (done todo : List ℤ) (d : LircData) : Type 0 where
    table : IsTable d
    split : clients d ≡ done ++ todo
    apart : Apart done todo
    distinct : Distinct todo

  AtHead-count :
      {done todo : List ℤ} {d : LircData} → AtHead done todo d → d.clin ≡ length done + length todo
  AtHead-count {done} {todo} {d} a = omega (
    arith,
    ap length a.split,
    length-take d.clin d.clis,
    length-append done todo,
    a.table.used,
    a.table.slots,
  )

  AtHead-fd :
      {done todo : List ℤ} {d : LircData} {fd : ℤ}
      → AtHead done (fd ∷ todo) d
      → get_or d.clis (length done) minus_one ≡ fd
  AtHead-fd {done} {todo} {d} {fd} a =
      sym (get_or-take d.clis d.clin (length done) minus_one (omega (arith, AtHead-count a)))
      ∙ ap (λ xs. get_or xs (length done) minus_one) a.split
      ∙ get_or-append done todo fd minus_one

  AtHead-kept :
      {done todo : List ℤ} {d : LircData} {fd : ℤ}
      → AtHead done (fd ∷ todo) d
      → AtHead (done ++ (fd ∷ [])) todo d
  AtHead-kept {done} {todo} {d} {fd} a = record {
    table = a.table;
    split = a.split ∙ sym (append_assoc done (fd ∷ []) todo);
    apart = Apart-snoc done todo fd a.apart.1 a.distinct.0;
    distinct = a.distinct.1;
  }

  AtHead-dropped :
      {done todo : List ℤ} {d : LircData} {fd : ℤ} (t : Trace)
      → AtHead done (fd ∷ todo) d
      → AtHead done todo (remove_client env d fd t).0
  AtHead-dropped {done} {todo} {d} {fd} t a = record {
    table = remove_client-IsTable env d fd t a.table;
    split =
        clients-remove_client env d fd t (omega (arith, a.table.used, a.table.slots))
        ∙ ap (erase_first fd) a.split
        ∙ erase_first-append done todo fd a.apart.0;
    apart = a.apart.1;
    distinct = a.distinct.1;
  }

  AtHead-hang_up :
      {done todo : List ℤ} {d : LircData} {fd : ℤ} (t : Trace)
      → AtHead done (fd ∷ todo) d
      → (remove_client env d fd t).1 ≡ hang_up env fd t
  AtHead-hang_up {done} {todo} {d} {fd} t a =
      remove_client-hang_up env d fd t (omega (arith, a.table.used, a.table.slots)) (λ e. absurd (
        omega (
          arith,
          ap length (
              sym (erase_first-append done todo fd a.apart.0)
              ∙ ap (erase_first fd) (sym a.split)
              ∙ e
              ∙ a.split),
          length-append done todo,
          length-append done (fd ∷ todo),
        )))

  -- What the rest of the loop does, put behind one write.
  Passed-kept :
      {done todo : List ℤ} {d : LircData} {fd r : ℤ} {t t1 : Trace} {o : Outcome (LircData × Trace)}
      → write_socket env fd msg t ≡ ok (r, t1)
      → ltb_ℤ r (pos (length msg)) ≡ false
      → Passed msg env (done ++ (fd ∷ [])) todo d t1 o
      → Passed msg env done (fd ∷ todo) d t o
  unfolding send_each
  Passed-kept {done} {fd = fd} e good (passed kept all split table same) =
      passed (fd ∷ kept) (rw (e, good, all)) (split ∙ append_assoc done (fd ∷ []) kept) table same

  Passed-dropped :
      {done todo : List ℤ} {d : LircData} {fd r : ℤ} {t t1 : Trace} {o : Outcome (LircData × Trace)}
      → write_socket env fd msg t ≡ ok (r, t1)
      → ltb_ℤ r (pos (length msg)) ≡ true
      → Passed msg env done todo (remove_client env d fd t1).0 (hang_up env fd t1) o
      → Passed msg env done (fd ∷ todo) d t o
  unfolding send_each
  Passed-dropped {d = d} {fd = fd} {t1 = t1} e bad (passed kept all split table same) =
      passed kept (rw (e, bad, all)) split table (
        SameBesideTable-trans d (remove_client env d fd t1).0 _
          (remove_client-SameBesideTable env d fd t1) same)

  write_ok :
      {fd : ℤ} {t : Trace} {o : Outcome (ℤ × Trace)}
      → Wrote fd (length msg) msg t o
      → (r : ℤ) × (t1 : Trace) × (o ≡ ok (r, t1))
  write_ok (whole s) = (_, _, refl)
  write_ok (partial n f l s) = (_, _, refl)

  loop-Passed :
      (rounds : ℕ) (done todo : List ℤ) (d : LircData) (t : Trace)
      → AtHead done todo d
      → length todo ≤ rounds
      → Passed msg env done todo d t (broadcast_loop env msg rounds (length done) d t)
  unfolding broadcast_loop send_each after_write
  loop-Passed zero done [] d t a h =
      let outside : ltb (length done) d.clin ≡ false = ground (arith, AtHead-count a) in
      simp outside (passed [] refl a.split a.table refl)
  loop-Passed (suc rounds) done [] d t a h =
      let outside : ltb (length done) d.clin ≡ false = ground (arith, AtHead-count a) in
      simp outside (passed [] refl a.split a.table refl)
  loop-Passed zero done (fd ∷ todo) d t a h = absurd (omega arith)
  loop-Passed (suc rounds) done (fd ∷ todo) d t a h =
      let inside : ltb (length done) d.clin ≡ true = ground (arith, AtHead-count a) in
      let (r, t1, e) = write_ok (write_socket-Wrote env fd msg t w) in
      elim (Bool-cases (ltb_ℤ r (pos (length msg)))) [
        | inl bad ↦
            simp (inside, AtHead-fd a, e, bad, AtHead-hang_up t1 a)
              (Passed-dropped e bad (
                loop-Passed rounds done todo (remove_client env d fd t1).0 (hang_up env fd t1)
                  (AtHead-dropped t1 a) (omega arith)))
        | inr good ↦
            let next : length (done ++ (fd ∷ [])) ≡ length done + 1 =
              omega (arith, length-append done (fd ∷ [])) in
            simp (inside, AtHead-fd a, e, good, ← next)
              (Passed-kept e good
                (loop-Passed rounds (done ++ (fd ∷ [])) todo d t1 (AtHead-kept a) (omega arith)))
      ]

-- The loop of broadcastToLirc, over a well-formed table of distinct descriptors and with a write()
-- that reports no more bytes than it was offered, ends, and does what one write to each client in
-- turn does: the clients that it keeps are those for which the write did not fail, in their order,
-- and nothing else of the state changes.
pub broadcast_loop-send_each :
    (env : Env) (msg : List ℕ) (d : LircData) (t : Trace)
    → WritesAtMost env
    → IsTable d
    → Distinct (clients d)
    → Passed msg env [] (clients d) d t (broadcast_loop env msg d.clin 0 d t)
broadcast_loop-send_each env msg d t w table distinct =
    loop-Passed env w msg d.clin [] (clients d) d t
      (record { table = table; split = refl; apart = Apart-nil (clients d); distinct = distinct })
      (omega (arith, length-take d.clin d.clis))
  where
    Apart-nil : (todo : List ℤ) → Apart [] todo
    Apart-nil [] = tt
    Apart-nil (x ∷ todo) = (refl, Apart-nil todo)
