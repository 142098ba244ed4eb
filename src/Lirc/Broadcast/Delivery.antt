-- ===== src/Lirc/Broadcast/Delivery.antt =====
-- What one pass over the clients means for each of them.
use bdremote_ng.Prelude.{
  ℕ, ◌<◌, ◌≡◌, ◌≢◌, refl, ap, ◌∙◌, arith, ℤ, pos, negsuc, true, false, List, [], ◌∷◌, ◌++◌, take,
  length, eq_ℤ, eq_ℤ_iff, ltb_ℤ, All, Outcome, ok, append-nil, ◌≤◌,
}
use bdremote_ng.Sys.{Env, Trace, WritesAtMost}
use bdremote_ng.Sys.Delivery.{delivered}
use bdremote_ng.Lirc.Socket.{write_socket}
use bdremote_ng.Lirc.Socket.Whole.{Wrote, whole, partial, write_socket-Wrote}
use bdremote_ng.Lirc.Clients.{hang_up}
use bdremote_ng.Lirc.Broadcast.Pass.{is_in, Distinct, send_each}

-- A client is kept and has received the whole message behind what it had, or it is dropped and has
-- received a proper prefix.
pub data Fate (msg : List ℕ) (kept : List ℤ) (t t' : Trace) (fd : ℤ) : Type 0 where
  served : is_in fd kept ≡ true → delivered fd t' ≡ delivered fd t ++ msg → Fate msg kept t t' fd
  dropped :
      (n : ℕ)
      → n < length msg
      → is_in fd kept ≡ false
      → delivered fd t' ≡ delivered fd t ++ take n msg
      → Fate msg kept t t' fd

-- The outcome of a pass over `fds`: nobody else is kept or written to.
pub record Fates (msg : List ℕ) (fds kept : List ℤ) (t t' : Trace) : Type 0 where
  pub each : All (Fate msg kept t t') fds
  pub nobody_else :
      (g : ℤ) → is_in g fds ≡ false → (is_in g kept ≡ false) × (delivered g t' ≡ delivered g t)

below_zero : (r : ℤ) (n : ℕ) → ltb_ℤ (pos 0) r ≡ false → 0 < n → ltb_ℤ r (pos n) ≡ true
below_zero (pos k) n h p = ground arith
below_zero (negsuc k) n h p = refl

-- Hanging up writes nothing.
delivered-hang_up :
    (env : Env) (fd g : ℤ) (t : Trace) → delivered g (hang_up env fd t) ≡ delivered g t
delivered-hang_up env fd g t = simp append-nil

-- A fate is the same for a later list of kept clients and an earlier trace that agree on `fd`.
Fate-moved :
    {msg : List ℕ} {kept kept' : List ℤ} {t t1 t' : Trace} {fd : ℤ}
    → delivered fd t1 ≡ delivered fd t
    → is_in fd kept' ≡ is_in fd kept
    → Fate msg kept t1 t' fd
    → Fate msg kept' t t' fd
Fate-moved {msg} same e (served k all) = served (e ∙ k) (all ∙ ap (λ s. s ++ msg) same)
Fate-moved {msg} same e (dropped n short k part) =
    dropped n short (e ∙ k) (part ∙ ap (λ s. s ++ take n msg) same)

All-Fate-moved :
    (msg : List ℕ) (kept kept' : List ℤ) (t t1 t' : Trace) (fds : List ℤ) (fd : ℤ)
    → is_in fd fds ≡ false
    → ((g : ℤ) → g ≢ fd → delivered g t1 ≡ delivered g t)
    → ((g : ℤ) → g ≢ fd → is_in g kept' ≡ is_in g kept)
    → All (Fate msg kept t1 t') fds
    → All (Fate msg kept' t t') fds
All-Fate-moved msg kept kept' t t1 t' [] fd out same e a = tt
All-Fate-moved msg kept kept' t t1 t' (x ∷ fds) fd out same e a =
    let ne : x ≢ fd = ground (arith, eq_ℤ_iff x fd) in
    (
      Fate-moved (same x ne) (e x ne) a.0,
      All-Fate-moved msg kept kept' t t1 t' fds fd (ground arith) same e a.1,
    )

-- The fate of one client put before those of the others.
Fates-cons :
    (msg : List ℕ) (fd : ℤ) (fds kept kept' : List ℤ) (t t1 t' : Trace)
    → is_in fd fds ≡ false
    → ((g : ℤ) → g ≢ fd → delivered g t1 ≡ delivered g t)
    → ((g : ℤ) → g ≢ fd → is_in g kept' ≡ is_in g kept)
    → Fate msg kept' t t' fd
    → Fates msg fds kept t1 t'
    → Fates msg (fd ∷ fds) kept' t t'
Fates-cons msg fd fds kept kept' t t1 t' out same e first rest = record {
  each = (first, All-Fate-moved msg kept kept' t t1 t' fds fd out same e rest.each);
  nobody_else = λ g h.
      let ne : g ≢ fd = ground (arith, eq_ℤ_iff fd g) in
      let (not_kept, silent) = rest.nobody_else g (ground arith) in
      (e g ne ∙ not_kept, silent ∙ same g ne);
}

All-Fate-earlier :
    (msg : List ℕ) (kept : List ℤ) (t t1 t' : Trace) (fds : List ℤ)
    → ((g : ℤ) → delivered g t1 ≡ delivered g t)
    → All (Fate msg kept t1 t') fds
    → All (Fate msg kept t t') fds
All-Fate-earlier msg kept t t1 t' [] same a = tt
All-Fate-earlier msg kept t t1 t' (x ∷ fds) same a =
    (Fate-moved (same x) refl a.0, All-Fate-earlier msg kept t t1 t' fds same a.1)

-- Calls that write nothing may come before.
pub Fates-earlier :
    {msg : List ℕ} {fds kept : List ℤ} {t t1 t' : Trace}
    → ((g : ℤ) → delivered g t1 ≡ delivered g t)
    → Fates msg fds kept t1 t'
    → Fates msg fds kept t t'
Fates-earlier {msg} {fds} {kept} {t} {t1} {t'} same f = record {
  each = All-Fate-earlier msg kept t t1 t' fds same f.each;
  nobody_else =
      λ g out. let (not_kept, silent) = f.nobody_else g out in (not_kept, silent ∙ same g);
}

abbrev pub SendsTo : Env → List ℕ → List ℤ → Trace → Type 0
SendsTo env msg fds t =
    (kept : List ℤ) × (t' : Trace) × (send_each env msg fds t ≡ ok (kept, t'))
    × Fates msg fds kept t t'
    × Distinct kept
    × (length kept ≤ length fds)

module _ (env : Env) (w : WritesAtMost env) (msg : List ℕ) where
  after_one :
      (fd : ℤ) (fds : List ℤ) (t : Trace) (o : Outcome (ℤ × Trace))
      → is_in fd fds ≡ false
      → Wrote fd (length msg) msg t o
      → write_socket env fd msg t ≡ o
      → ((t1 : Trace) → SendsTo env msg fds t1)
      → SendsTo env msg (fd ∷ fds) t
  unfolding send_each
  after_one fd fds t o out (whole {t' = t1} s) e later =
      let (kept, t', all, fates, distinct, fewer) = later t1 in
      let done : ltb_ℤ (pos (length msg)) (pos (length msg)) ≡ false = ground arith in
      let here : eq_ℤ fd fd ≡ true = (eq_ℤ_iff fd fd).1 refl in
      (
        fd ∷ kept,
        t',
        rw (e, done, all) refl,
        Fates-cons msg fd fds kept (fd ∷ kept) t t1 t' out s.elsewhere
            (λ g ne. ground (arith, eq_ℤ_iff fd g))
            (served (ground arith) ((fates.nobody_else fd out).1 ∙ s.here)) fates,
        ((fates.nobody_else fd out).0, distinct),
        omega arith,
      )
  after_one fd fds t o out (partial {t' = t1} {r = r} n failed short s) e later =
      let (kept, t', all, fates, distinct, fewer) = later (hang_up env fd t1) in
      let stopped : ltb_ℤ r (pos (length msg)) ≡ true =
        below_zero r (length msg) failed (omega arith) in
      (
        kept,
        t',
        rw (e, stopped, all) refl,
        Fates-cons msg fd fds kept kept t (hang_up env fd t1) t' out
            (λ g ne. delivered-hang_up env fd g t1 ∙ s.elsewhere g ne) (λ g ne. refl)
            (dropped n short (fates.nobody_else fd out).0
              ((fates.nobody_else fd out).1 ∙ delivered-hang_up env fd fd t1 ∙ s.here))
            fates,
        distinct,
        omega arith,
      )

  pub send_each-SendsTo : (fds : List ℤ) (t : Trace) → Distinct fds → SendsTo env msg fds t
  unfolding send_each
  send_each-SendsTo [] t h =
      ([], t, refl, record { each = tt; nobody_else = λ g e. (refl, refl) }, tt, omega arith)
  send_each-SendsTo (fd ∷ fds) t h =
      after_one fd fds t (write_socket env fd msg t) h.0 (write_socket-Wrote env fd msg t w) refl
        (λ t1. send_each-SendsTo fds t1 h.1)
