-- ===== src/Lirc/Broadcast/Fates.antt =====
-- What a broadcast means for each client.
use bdremote_ng.Prelude.{
  ℕ, ◌<◌, ◌≡◌, refl, ap, sym, ◌∙◌, arith, ℤ, true, false, List, [], length, Outcome, ok, stop, ◌==◌,
  ltb, lt→ltb, length-take, ◌≤◌, subst, ok-injective, assertion,
}
use bdremote_ng.Sys.{Env, Trace, WritesAtMost}
use bdremote_ng.Text.{CString}
use bdremote_ng.Lirc.{LircData, max_clients}
use bdremote_ng.Lirc.Clients.{clients}
use bdremote_ng.Lirc.Broadcast.Pass.{Distinct}
use bdremote_ng.Lirc.Broadcast.Clients.{Passed, passed, broadcast_loop-send_each}
use bdremote_ng.Lirc.Clients.Table.{SameBesideTable}
use bdremote_ng.Lirc.Clients.Bounds.{IsTable}
use bdremote_ng.Lirc.Broadcast.{message, broadcast_to_lirc}
use bdremote_ng.Lirc.Broadcast.Delivery.{Fates, SendsTo, send_each-SendsTo}

-- What a broadcast of `msg` in the state `d` comes to.
pub record Broadcast (msg : List ℕ) (d : LircData) (t : Trace) (d' : LircData) (t' : Trace)
    : Type 0 where
  pub fates : Fates msg (clients d) (clients d') t t'
  pub table : IsTable d'
  pub same : SameBesideTable d d'
  pub distinct : Distinct (clients d')
  pub fewer : d'.clin ≤ d.clin

loop-Broadcast :
    {env : Env} {msg : List ℕ} {d : LircData} {t : Trace} {o : Outcome (LircData × Trace)}
    → SendsTo env msg (clients d) t
    → Passed msg env [] (clients d) d t o
    → (d' : LircData) × (t' : Trace) × (o ≡ ok (d', t')) × Broadcast msg d t d' t'
loop-Broadcast {msg = msg} {d = d} {t = t} (kept, t1, all, fates, distinct, fewer)
      (passed {d' = d'} {t' = t'} kept' all' split table same) =
    let both : (kept, t1) ≡ (kept', t') = ok-injective (sym all ∙ all') in
    (
      d',
      t',
      refl,
      record {
        fates =
            subst (λ k. Fates msg (clients d) k t t') (sym split)
              (subst (λ p. Fates msg (clients d) p.0 t p.1) both fates);
        table = table;
        same = same;
        distinct = subst Distinct (sym split) (subst (λ p. Distinct p.0) both distinct);
        fewer = omega (
          arith,
          fewer,
          ap (λ (p : List ℤ × Trace). length p.0) both,
          ap length split,
          length-take d'.clin d'.clis,
          length-take d.clin d.clis,
          table.used,
          table.slots,
        );
      },
    )

-- broadcastToLirc, with a write() that reports no more bytes than it was offered, a well-formed
-- table with fewer than MAX_CLIENTS clients, all on distinct descriptors, and a line that fits its
-- array of 100 bytes, always ends normally. A client is then either kept, and has received exactly
-- the line, or it has received a proper prefix and is no client any more; nobody else receives
-- anything, and only the table of clients changes.
pub broadcast_to_lirc-Broadcast :
    (env : Env) (d : LircData) (name : CString) (rep code : ℕ) (t : Trace)
    → WritesAtMost env
    → IsTable d
    → Distinct (clients d)
    → d.magic0 ≡ 0x15
    → d.clin < max_clients
    → length (message code rep name) < 100
    → (d' : LircData) × (t' : Trace) × (broadcast_to_lirc env d name rep code t ≡ ok (d', t'))
      × Broadcast (message code rep name) d t d' t'
unfolding broadcast_to_lirc
broadcast_to_lirc-Broadcast env d name rep code t w table distinct magic room short =
    let msg = message code rep name in
    let fits : ltb (length msg) 100 ≡ true = lt→ltb _ _ short in
    let right : (d.magic0 == 0x15) ≡ true = ground arith in
    let below : ltb d.clin max_clients ≡ true = lt→ltb _ _ room in
    simp (fits, right, below)
      (loop-Broadcast (send_each-SendsTo env w msg (clients d) t distinct)
        (broadcast_loop-send_each env msg d t w table distinct))

-- With the table full and a line that fits its array, the assert of broadcastToLirc on the number of
-- clients fails.
pub broadcast_to_lirc-full :
    (env : Env) (d : LircData) (name : CString) (rep code : ℕ) (t : Trace)
    → d.clin ≡ max_clients
    → length (message code rep name) < 100
    → d.magic0 ≡ 0x15
    → broadcast_to_lirc env d name rep code t ≡ stop assertion
unfolding broadcast_to_lirc
broadcast_to_lirc-full env d name rep code t full short magic =
    let fits : ltb (length (message code rep name)) 100 ≡ true = lt→ltb _ _ short in
    let right : (d.magic0 == 0x15) ≡ true = ground arith in
    let above : ltb d.clin max_clients ≡ false = ground arith in simp (fits, right, above)
