-- ===== src/Memory/Life/Holding.antt =====
-- Who owns the blocks while the capture data has strings, too.
use bdremote_ng.Prelude.{ℕ, ◌+◌, ◌≡◌, ◌≤◌, some, arith, Outcome, ok, Option, subst}
use bdremote_ng.Text.{CString}
use bdremote_ng.Config.{Configuration}
use bdremote_ng.Memory.Goes.{Goes, goes, no_room}
use bdremote_ng.Memory.{Ptr, null, Heap, Allocator, free_val}
use bdremote_ng.Memory.Blocks.{
  Owned, Kept, Kept-trans, Points, Points-Kept, one, one_self, live, Stored, stored, free_val-Owned,
}
use bdremote_ng.Memory.Settings.{Field, Struct, State}
use bdremote_ng.Memory.Settings.Fields.{owners, one-le-owners}
use bdremote_ng.Memory.Settings.Agrees.{text_of, plain_of, Agrees, Alike, both, stopped}

pub Goes-Alike :
    {a : Allocator} {rest : Ptr → ℕ} {h0 : Heap} {r : Outcome State} {r' : Outcome Configuration}
    (c : Configuration)
    → Alike a rest h0 r r'
    → r' ≡ ok c
    → Goes a (Agrees rest h0 c) r
Goes-Alike {a = a} {rest = rest} {h0 = h0} c (both {m = m} {c = d} v) e =
    let same : d ≡ c = ground arith in goes (subst (λ c. Agrees rest h0 c m) same v)
Goes-Alike c (stopped safe) e = cc
Goes-Alike c (Alike.no_room g n e') e = no_room g n e'

-- The configuration `s` has the strings of `c`; `bt` and `dest` own a block each, if they are not
-- NULL; besides all these there is just what was in the heap `h0`, unchanged.
pub record Holding (h0 : Heap) (c : Configuration) (s : Struct) (bt dest : Ptr) (h : Heap)
    : Type 0 where
  pub plain : s.plain ≡ plain_of c
  pub strings : (f : Field) → Points h (s.string f) (text_of c f)
  pub owned : Owned h (λ q. one bt q + (one dest q + (owners s.string q + live h0 q)))
  pub kept : Kept (live h0) h0 h

module _ {h0 : Heap} {c : Configuration} {s : Struct} where
  pub Holding-Agrees : {h : Heap} → Agrees (live h0) h0 c (s, h) → Holding h0 c s null null h
  Holding-Agrees v = record {
    plain = v.plain;
    strings = v.strings;
    owned = λ q. omega (arith, v.owned q);
    kept = v.kept;
  }

  pub Agrees-Holding : {h : Heap} → Holding h0 c s null null h → Agrees (live h0) h0 c (s, h)
  Agrees-Holding v = record {
    plain = v.plain;
    strings = v.strings;
    owned = λ q. omega (arith, v.owned q);
    kept = v.kept;
  }

  -- Another heap, in which the strings of the configuration are as before.
  Holding-moved :
      (rest : Ptr → ℕ) {bt dest bt' dest' : Ptr} {h h' : Heap}
      → Holding h0 c s bt dest h
      → ((q : Ptr) → owners s.string q + live h0 q ≤ rest q)
      → Kept rest h h'
      → Owned h' (λ q. one bt' q + (one dest' q + (owners s.string q + live h0 q)))
      → Holding h0 c s bt' dest' h'
  Holding-moved rest {h = h} {h' = h'} v within kept own = record {
    plain = v.plain;
    strings = λ f.
        Points-Kept rest (s.string f) (text_of c f) kept
          (λ ne. omega (
            arith,
            within (s.string f),
            one-le-owners f s.string (s.string f),
            one_self (s.string f) ne,
          ))
          (v.strings f);
    owned = own;
    kept = Kept-trans v.kept (λ q l. kept q (omega (arith, within q)));
  }

  pub store_bt :
      {a : Allocator} {dest : Ptr} {h : Heap} {text : CString} {r : Outcome (Ptr × Heap)}
      → Holding h0 c s null dest h
      → Stored a h text (λ q. one dest q + (owners s.string q + live h0 q)) r
      → Goes a (λ (p, h'). Holding h0 c s p dest h' × Points h' p (some text)) r
  store_bt v (stored p h' ne e own kept) =
      goes (Holding-moved _ v (λ q. omega arith) kept (λ q. omega (arith, own q)), (ne, e))
  store_bt v (Stored.no_room g n e) = no_room g n e

  pub store_dest :
      {a : Allocator} {bt : Ptr} {h : Heap} {text : CString} {r : Outcome (Ptr × Heap)}
      → Holding h0 c s bt null h
      → Stored a h text (λ q. one bt q + (owners s.string q + live h0 q)) r
      → Goes a
          (λ (p, h').
            Holding h0 c s bt p h' × ((o : Option CString) → Points h bt o → Points h' bt o))
          r
  store_dest {bt = bt} v (stored p h' ne e own kept) = goes (
    Holding-moved _ v (λ q. omega arith) kept (λ q. omega (arith, own q)),
    (λ o. Points-Kept _ bt o kept (λ ne. omega (arith, one_self bt ne))),
  )
  store_dest v (Stored.no_room g n e) = no_room g n e

  pub free_bt :
      {bt dest : Ptr} {h : Heap}
      → Holding h0 c s bt dest h
      → (h' : Heap) × (free_val h bt ≡ ok h') × Holding h0 c s null dest h'
  free_bt {bt} {dest} {h} v =
      let (h', e, own, kept) =
        free_val-Owned h bt (λ q. one dest q + (owners s.string q + live h0 q)) v.owned in
      (h', e, Holding-moved _ v (λ q. omega arith) kept (λ q. omega (arith, own q)))

  pub free_dest :
      {dest : Ptr} {h : Heap}
      → Holding h0 c s null dest h
      → (h' : Heap) × (free_val h dest ≡ ok h') × Holding h0 c s null null h'
  free_dest {dest} {h} v =
      let (h', e, own, kept) =
        free_val-Owned h dest (λ q. owners s.string q + live h0 q)
          (λ q. omega (arith, v.owned q)) in
      (h', e, Holding-moved _ v (λ q. omega arith) kept (λ q. omega (arith, own q)))
