-- ===== src/Memory/Packets/Moves.antt =====
-- What is known of the packets between DataInd and handleKey, and that each step keeps it.
use bdremote_ng.Prelude.{
  ℕ, ◌+◌, ◌<◌, ◌≡◌, ◌==◌, refl, sym, subst, ap, ◌∙◌, arith, false, Option, none, some, List, [],
  ◌∷◌, ◌++◌, length, All, append-nil, append_assoc,
}
use bdremote_ng.Queue.{Queue, add_section, rem_section}
use bdremote_ng.Queue.Holds.{Holds, Holds-queue_init}
use bdremote_ng.Queue.Refine.{add_section-Holds, rem_section-Holds}
use bdremote_ng.Memory.{Heap, Allocator, null}
use bdremote_ng.Memory.Goes.{Goes, goes, Goes-bind}
use bdremote_ng.Memory.Blocks.{Owned, Kept, Kept-trans, live}
use bdremote_ng.Memory.Packets.{
  Packet, Hands, at_start, Event, data_ind, queue_add, queue_rem, handle, on_data_ind, after_add,
  on_add, after_rem, on_rem, on_handle, step, steps,
}
use bdremote_ng.Memory.Packets.Row.{
  Has, Row, Row-Kept, Row-append, owners, owners-append, queue_data_init-Goes,
  queue_data_de_init-Owned,
}

abbrev pub in_hand : Option Packet → List Packet
in_hand none = []
in_hand (some qd) = qd ∷ []

-- The packets between DataInd and handleKey are a row in memory with the bytes that were told and
-- are not handled yet, in order; besides their blocks there is just what was in the heap `h0`.
pub record Handed (h0 : Heap) (m : Hands) : Type 0 where
  pub inside : List Packet
  pub row : List Packet
  pub bytes : List (List ℕ)
  pub holds : Holds m.queue inside
  pub is_row : row ≡ in_hand m.current ++ (inside ++ in_hand m.pending)
  pub there : Row m.heap row bytes
  pub in_order : m.handled ++ bytes ≡ m.told
  pub owned : Owned m.heap (λ q. owners row q + live h0 q)
  pub kept : Kept (live h0) h0 m.heap

-- recv gives DataInd at least one byte.
abbrev pub NotEmpty : Event → Type 0
NotEmpty (data_ind s) = 0 < length s
NotEmpty _ = Unit

pub at_start-Handed : (h : Heap) → Handed h (at_start h)
at_start-Handed h = record {
  inside = [];
  row = [];
  bytes = [];
  holds = Holds-queue_init;
  is_row = refl;
  there = tt;
  in_order = refl;
  owned = λ q. omega arith;
  kept = λ q l. refl;
}

module _ {h0 : Heap} where
  after_add-Handed :
      (r : Option (Queue Packet)) (qd : Packet) (m : Hands)
      → m.pending ≡ some qd
      → add_section m.queue qd ≡ r
      → Handed h0 m
      → Handed h0 (after_add r m)
  unfolding after_add
  after_add-Handed none qd m e added v = v
  after_add-Handed (some q) qd m e added v = record {
    inside = v.inside ++ (qd ∷ []);
    row = v.row;
    bytes = v.bytes;
    holds = add_section-Holds qd v.holds added;
    is_row =
        v.is_row
        ∙ ap (λ p. in_hand m.current ++ (v.inside ++ in_hand p)) e
        ∙ ap (λ l. in_hand m.current ++ l) (sym (append-nil (v.inside ++ (qd ∷ []))));
    there = v.there;
    in_order = v.in_order;
    owned = v.owned;
    kept = v.kept;
  }

  on_add-Handed :
      (o : Option Packet) (m : Hands) → m.pending ≡ o → Handed h0 m → Handed h0 (on_add o m)
  unfolding on_add
  on_add-Handed none m e v = v
  on_add-Handed (some qd) m e v = after_add-Handed (add_section m.queue qd) qd m e refl v

module _ {a : Allocator} {h0 : Heap} where
  on_data_ind-Handed :
      (s : List ℕ) (o : Option Packet) (m : Hands)
      → 0 < length s
      → m.pending ≡ o
      → Handed h0 m
      → Goes a (Handed h0) (on_data_ind a s o m)
  unfolding on_data_ind
  on_data_ind-Handed s (some qd) m some_bytes e v = goes v
  on_data_ind-Handed s none m some_bytes e v =
      Goes-bind _ (queue_data_init-Goes a m.heap s _ some_bytes v.owned) λ (qd, h) (has, own, kept).
        let line = in_hand m.current ++ v.inside in
        let old : v.row ≡ line =
          v.is_row
          ∙ ap (λ p. in_hand m.current ++ (v.inside ++ in_hand p)) e
          ∙ ap (λ l. in_hand m.current ++ l) (append-nil v.inside) in
        goes (record {
          inside = v.inside;
          row = v.row ++ (qd ∷ []);
          bytes = v.bytes ++ (s ∷ []);
          holds = v.holds;
          is_row =
              ap (λ l. l ++ (qd ∷ [])) old ∙ append_assoc (in_hand m.current) v.inside (qd ∷ []);
          there =
              Row-append v.row v.bytes (Row-Kept _ v.row v.bytes kept (λ q. omega arith) v.there)
                has;
          in_order =
              sym (append_assoc m.handled v.bytes (s ∷ [])) ∙ ap (λ l. l ++ (s ∷ [])) v.in_order;
          owned = λ q. omega (arith, own q, owners-append v.row (qd ∷ []) q);
          kept = Kept-trans v.kept (λ q l. kept q (omega (arith, l)));
        })

  after_rem-Handed :
      (r : Option (Option Packet × Queue Packet)) (m : Hands)
      → m.current ≡ none
      → rem_section m.queue ≡ r
      → Handed h0 m
      → Goes a (Handed h0) (after_rem r m)
  unfolding after_rem
  after_rem-Handed none m e taken v = goes v
  after_rem-Handed (some (none, q)) m e taken v =
      let (x, rest, was, out, h) = rem_section-Holds v.inside v.holds taken in cc out
  after_rem-Handed (some (some qd, q)) m e taken v =
      let (x, rest, was, out, h) = rem_section-Holds v.inside v.holds taken in
      let same : x ≡ qd = ground (arith, out) in
      goes (record {
        inside = rest;
        row = v.row;
        bytes = v.bytes;
        holds = h;
        is_row =
            v.is_row
            ∙ ap (λ c. in_hand c ++ (v.inside ++ in_hand m.pending)) e
            ∙ ap (λ l. l ++ in_hand m.pending) was
            ∙ ap (λ x. x ∷ (rest ++ in_hand m.pending)) same;
        there = v.there;
        in_order = v.in_order;
        owned = v.owned;
        kept = v.kept;
      })

  on_rem-Handed :
      (o : Option Packet) (m : Hands)
      → m.current ≡ o
      → Handed h0 m
      → Goes a (Handed h0) (on_rem o m)
  unfolding on_rem
  on_rem-Handed (some qd) m e v = goes v
  on_rem-Handed none m e v = after_rem-Handed (rem_section m.queue) m e refl v

  -- the oldest packet of the row
  handle_first :
      (qd : Packet) (m : Hands) (v : Handed h0 m) (row : List Packet) (bytes : List (List ℕ))
      → row ≡ qd ∷ (v.inside ++ in_hand m.pending)
      → Row m.heap row bytes
      → m.handled ++ bytes ≡ m.told
      → Owned m.heap (λ q. owners row q + live h0 q)
      → Goes a (Handed h0) (on_handle (some qd) m)
  unfolding on_handle
  handle_first qd m v [] bytes e r order own = cc e
  handle_first qd m v (p ∷ row) [] e r order own = elim r [ ]
  handle_first qd m v (p ∷ row) (s ∷ bytes) e r order own =
      let same : p ≡ qd = ground arith in
      let has : Has m.heap qd s = subst (λ p. Has m.heap p s) same r.0 in
      let (h', freed, own', kept) =
        queue_data_de_init-Owned m.heap qd s (λ q. owners row q + live h0 q) has
          (λ q.
            omega (
              arith,
              subst (λ p. Owned m.heap (λ q. owners (p ∷ row) q + live h0 q)) same own q,
            )) in
      let there : (qd.buffer == null) ≡ false = ground (arith, has.buffer_there) in
      simp (there, has.bytes, freed)
        (goes (record {
          inside = v.inside;
          row = row;
          bytes = bytes;
          holds = v.holds;
          is_row = ground arith;
          there = Row-Kept _ row bytes kept (λ q. omega arith) r.1;
          in_order = append_assoc m.handled (s ∷ []) bytes ∙ order;
          owned = own';
          kept = Kept-trans v.kept (λ q l. kept q (omega (arith, l)));
        }))

  on_handle-Handed :
      (o : Option Packet) (m : Hands)
      → m.current ≡ o
      → Handed h0 m
      → Goes a (Handed h0) (on_handle o m)
  unfolding on_handle
  on_handle-Handed none m e v = goes v
  on_handle-Handed (some qd) m e v =
      handle_first qd m v v.row v.bytes
        (v.is_row ∙ ap (λ c. in_hand c ++ (v.inside ++ in_hand m.pending)) e) v.there v.in_order
        v.owned

  step-Handed : (e : Event) (m : Hands) → NotEmpty e → Handed h0 m → Goes a (Handed h0) (step a e m)
  unfolding step
  step-Handed (data_ind s) m some_bytes v = on_data_ind-Handed s m.pending m some_bytes refl v
  step-Handed queue_add m some_bytes v = goes (on_add-Handed m.pending m refl v)
  step-Handed queue_rem m some_bytes v = on_rem-Handed m.current m refl v
  step-Handed handle m some_bytes v = on_handle-Handed m.current m refl v

  pub steps-Handed :
      (es : List Event) (m : Hands)
      → All NotEmpty es
      → Handed h0 m
      → Goes a (Handed h0) (steps a es m)
  unfolding steps
  steps-Handed [] m some_bytes v = goes v
  steps-Handed (e ∷ es) m some_bytes v =
      Goes-bind (steps a es) (step-Handed e m some_bytes.0 v)
        (λ m1 v1. steps-Handed es m1 some_bytes.1 v1)
