-- ===== src/Lirc/Socket/Whole.antt =====
-- write_socket writes the whole message or a proper prefix of it, and its result tells which.
use bdremote_ng.Prelude.{
  ℕ, zero, suc, ◌+◌, ◌<◌, ◌≤◌, ◌≡◌, ◌≢◌, refl, ap, sym, ◌∙◌, arith, ℤ, pos, negsuc, List, [], ◌∷◌,
  ◌++◌, length, take, drop, true, false, Outcome, ok, stop, ltb, eq_ℤ, eq_ℤ_iff, length-drop,
  take-append-drop, append_assoc, append-nil, ltb_ℤ, take-add, out_of_bounds,
}
use bdremote_ng.Sys.{Env, Trace, write, WritesAtMost}
use bdremote_ng.Sys.Delivery.{delivered, accepted}
use bdremote_ng.Lirc.Socket.{more, ended, overrun, progress, write_loop, write_socket}

-- The prefix of `buf` that reached `fd` between two traces, and what the other descriptors got.
pub record Sent (fd : ℤ) (part : List ℕ) (t t' : Trace) : Type 0 where
  pub here : delivered fd t' ≡ delivered fd t ++ part
  pub elsewhere : (g : ℤ) → g ≢ fd → delivered g t' ≡ delivered g t

-- How a write of `buf`, the end of a message of `len` bytes, came out.
pub data Wrote (fd : ℤ) (len : ℕ) (buf : List ℕ) (t : Trace) : Outcome (ℤ × Trace) → Type 0 where
  whole : {t' : Trace} → Sent fd buf t t' → Wrote fd len buf t (ok (pos len, t'))
  partial :
      {t' : Trace} {r : ℤ} (n : ℕ)
      → ltb_ℤ (pos 0) r ≡ false
      → n < length buf
      → Sent fd (take n buf) t t'
      → Wrote fd len buf t (ok (r, t'))

Sent-nothing : (fd : ℤ) (t : Trace) → Sent fd [] t t
Sent-nothing fd t = record { here = sym (append-nil (delivered fd t)); elsewhere = λ g ne. refl }

Sent-trans :
    {fd : ℤ} {a b c : List ℕ} {t t1 t2 : Trace}
    → a ++ b ≡ c
    → Sent fd a t t1
    → Sent fd b t1 t2
    → Sent fd c t t2
Sent-trans {fd} {a} {b} {c} {t} e f g = record {
  here =
      g.here
      ∙ ap (λ s. s ++ b) f.here
      ∙ append_assoc (delivered fd t) a b
      ∙ ap (◌++◌ (delivered fd t)) e;
  elsewhere = λ h ne. g.elsewhere h ne ∙ f.elsewhere h ne;
}

-- one call of write()
Sent-one :
    (fd : ℤ) (buf : List ℕ) (r : ℤ) (t : Trace)
    → Sent fd (accepted buf r) t (record { call = write fd buf; result = r } ∷ t)
Sent-one fd buf r t =
    let same : eq_ℤ fd fd ≡ true = (eq_ℤ_iff fd fd).1 refl in
    record {
      here = simp same;
      elsewhere = λ g ne.
          let other : eq_ℤ fd g ≡ false = ground (arith, eq_ℤ_iff fd g) in simp (other, append-nil);
    }

Wrote-after :
    {fd : ℤ} {len : ℕ} (k : ℕ) (buf : List ℕ) {t t1 : Trace} {o : Outcome (ℤ × Trace)}
    → Sent fd (take k buf) t t1
    → Wrote fd len (drop k buf) t1 o
    → k ≤ length buf
    → Wrote fd len buf t o
Wrote-after k buf s (whole s') h = whole (Sent-trans (take-append-drop k buf) s s')
Wrote-after k buf s (partial n failed short s') h =
    partial (k + n) failed (omega (arith, length-drop k buf))
      (Sent-trans (sym (take-add k n buf)) s s')

module _ (env : Env) (w : WritesAtMost env) (fd : ℤ) (len : ℕ) where
  write_loop-Wrote :
      (rounds : ℕ) (buf : List ℕ) (t : Trace)
      → length buf ≤ rounds
      → Wrote fd len buf t (write_loop env fd len rounds buf t)
  unfolding write_loop progress
  write_loop-Wrote rounds [] t h = whole (Sent-nothing fd t)
  write_loop-Wrote zero (b ∷ buf) t h = absurd (omega arith)
  write_loop-Wrote (suc rounds) (b ∷ buf) t h =
      after (env.answer t (write fd (b ∷ buf))) (w.at_most t fd (b ∷ buf))
        (λ rest t'. write_loop-Wrote rounds rest t')
    where
      after :
          (r : ℤ)
          → ((n : ℕ) → r ≡ pos n → n ≤ length (b ∷ buf))
          → ((rest : List ℕ) (t' : Trace)
              → length rest ≤ rounds
              → Wrote fd len rest t' (write_loop env fd len rounds rest t'))
          → Wrote fd len (b ∷ buf) t (elim (progress (b ∷ buf) r) [
            | more rest ↦
                write_loop env fd len rounds rest
                  (record { call = write fd (b ∷ buf); result = r } ∷ t)
            | ended result ↦ ok (result, record { call = write fd (b ∷ buf); result = r } ∷ t)
            | overrun ↦ stop out_of_bounds
          ])
      after (negsuc n) fits ih = partial 0 refl (omega arith) (Sent-one fd (b ∷ buf) (negsuc n) t)
      after (pos zero) fits ih = partial 0 refl (omega arith) (Sent-one fd (b ∷ buf) (pos 0) t)
      after (pos (suc n)) fits ih =
          let room : suc n ≤ length (b ∷ buf) = fits (suc n) refl in
          let inside : ltb (length (b ∷ buf)) (suc n) ≡ false = ground arith in
          rw inside (
            Wrote-after (suc n) (b ∷ buf) (Sent-one fd (b ∷ buf) (pos (suc n)) t)
              (ih (drop n buf) _ (omega (arith, length-drop n buf))) room)

-- With a write() that reports no more bytes than it was offered, write_socket always ends. Its
-- result is the length of the message, and then exactly the message has been written, or it is 0 or
-- negative, and then a proper prefix has been written; no other descriptor receives anything.
pub write_socket-Wrote :
    (env : Env) (fd : ℤ) (buf : List ℕ) (t : Trace)
    → WritesAtMost env
    → Wrote fd (length buf) buf t (write_socket env fd buf t)
unfolding write_socket
write_socket-Wrote env fd buf t w =
    write_loop-Wrote env w fd (length buf) (length buf) buf t (omega arith)
