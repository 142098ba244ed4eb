-- ===== src/Memory/Packets/Row.antt =====
-- A row of packets in memory, oldest first: each owns its two blocks and has its bytes.
use bdremote_ng.Prelude.{
  ℕ, ◌+◌, ◌<◌, ◌≤◌, ◌≡◌, ◌≢◌, ◌==◌, refl, arith, List, [], ◌∷◌, ◌++◌, length, ok, some, none, true,
  false, Bool-cases, inl, inr, ltb,
}
use bdremote_ng.Memory.{Ptr, null, Heap, Allocator, Block, write, read, allocate}
use bdremote_ng.Memory.Blocks.{
  Owned, Kept, Kept-trans, one, one_self, Points-Kept, live-write, Kept-write, write-write,
  read_self, free-Owned,
}
use bdremote_ng.Memory.Goes.{Goes, goes, no_room, Goes-mono}
use bdremote_ng.Memory.Packets.{
  Packet, queue_data_size, copy_bytes, queue_data_init, queue_data_de_init,
}

-- The packet has the bytes.
pub record Has (h : Heap) (qd : Packet) (s : List ℕ) : Type 0 where
  pub self_there : qd.self ≢ null
  pub buffer_there : qd.buffer ≢ null
  pub bytes : read h qd.buffer ≡ ok s
  pub size_right : qd.size ≡ length s
  pub not_empty : 0 < length s

abbrev pub Row : Heap → List Packet → List (List ℕ) → Type 0
Row h [] [] = Unit
Row h (qd ∷ qds) (s ∷ ss) = Has h qd s × Row h qds ss
Row h _ _ = ⊥

-- the blocks of the packets
abbrev pub owners : List Packet → Ptr → ℕ
owners [] q = 0
owners (qd ∷ qds) q = one qd.self q + (one qd.buffer q + owners qds q)

pub owners-append :
    (qds rest : List Packet) (q : Ptr) → owners (qds ++ rest) q ≡ owners qds q + owners rest q
owners-append [] rest q = omega arith
owners-append (qd ∷ qds) rest q = omega (arith, owners-append qds rest q)

Has-Kept :
    {h h' : Heap} (w : Ptr → ℕ) (qd : Packet) (s : List ℕ)
    → Kept w h h'
    → 0 < w qd.buffer
    → Has h qd s
    → Has h' qd s
Has-Kept w qd s kept own v = record {
  self_there = v.self_there;
  buffer_there = v.buffer_there;
  bytes = (Points-Kept w qd.buffer (some s) kept (λ ne. own) (v.buffer_there, v.bytes)).1;
  size_right = v.size_right;
  not_empty = v.not_empty;
}

pub Row-Kept :
    {h h' : Heap} (w : Ptr → ℕ) (qds : List Packet) (ss : List (List ℕ))
    → Kept w h h'
    → ((q : Ptr) → owners qds q ≤ w q)
    → Row h qds ss
    → Row h' qds ss
Row-Kept w [] [] kept le r = tt
Row-Kept w [] (s ∷ ss) kept le r = elim r [ ]
Row-Kept w (qd ∷ qds) [] kept le r = elim r [ ]
Row-Kept w (qd ∷ qds) (s ∷ ss) kept le r = (
  Has-Kept w qd s kept (omega (arith, le qd.buffer, one_self qd.buffer r.0.buffer_there)) r.0,
  Row-Kept w qds ss kept (λ q. omega (arith, le q)) r.1,
)

pub Row-append :
    {h : Heap} (qds : List Packet) (ss : List (List ℕ)) {qd : Packet} {s : List ℕ}
    → Row h qds ss
    → Has h qd s
    → Row h (qds ++ (qd ∷ [])) (ss ++ (s ∷ []))
Row-append [] [] r v = (v, tt)
Row-append [] (s ∷ ss) r v = elim r [ ]
Row-append (qd ∷ qds) [] r v = elim r [ ]
Row-append (qd ∷ qds) (s ∷ ss) r v = (r.0, Row-append qds ss r.1 v)

-- A packet that is made: its own copy of the bytes, and nothing else changed.
abbrev New : Heap → (Ptr → ℕ) → List ℕ → Packet × Heap → Type 0
New h w s (qd, h') =
    Has h' qd s × Owned h' (λ q. one qd.self q + (one qd.buffer q + w q)) × Kept w h h'

copy_bytes-Goes :
    (a : Allocator) (self : Ptr) (h : Heap) (s : List ℕ) (w : Ptr → ℕ)
    → self ≢ null
    → 0 < length s
    → Owned h (λ q. one self q + w q)
    → Goes a (New h w s) (copy_bytes a self h s)
unfolding copy_bytes allocate
copy_bytes-Goes a self h s w there some_bytes own =
    elim (Bool-cases (a.malloc h (length s) == null)) [
      | inl refused ↦ simp refused (no_room h (length s) (ground arith))
      | inr given ↦
          let buffer = a.malloc h (length s) in
          let b : Block = record { size = length s; text = some s } in
          let ne : buffer ≢ null = ground arith in
          let unused = a.is_fresh h (length s) ne in
          let own' = live-write h buffer b (λ q. one self q + w q) ne unused own in
          simp (given, write-write)
            (goes (
              record {
                self_there = there;
                buffer_there = ne;
                bytes = read_self h buffer s (length s);
                size_right = refl;
                not_empty = some_bytes;
              },
              (λ q. omega (arith, own' q)),
              (λ q l.
                  Kept-write h buffer b (λ q. one self q + w q) unused own q (omega (arith, l))),
            ))
    ]

-- queueDataInit
pub queue_data_init-Goes :
    (a : Allocator) (h : Heap) (s : List ℕ) (w : Ptr → ℕ)
    → 0 < length s
    → Owned h w
    → Goes a (New h w s) (queue_data_init a h s)
unfolding queue_data_init allocate
queue_data_init-Goes a h s w some_bytes own =
    elim (Bool-cases (a.malloc h queue_data_size == null)) [
      | inl refused ↦ simp refused (no_room h queue_data_size (ground arith))
      | inr given ↦
          let self = a.malloc h queue_data_size in
          let b : Block = record { size = queue_data_size; text = none } in
          let ne : self ≢ null = ground arith in
          let unused = a.is_fresh h queue_data_size ne in
          simp given (
            Goes-mono
              (copy_bytes-Goes a self (write h self (some b)) s w ne some_bytes
                (live-write h self b w ne unused own))
              (λ (qd, h') (has, own', kept).
                (has, own', Kept-trans (Kept-write h self b w unused own) kept)))
    ]

-- queueDataDeInit frees the two blocks of a packet, and no other.
pub queue_data_de_init-Owned :
    (h : Heap) (qd : Packet) (s : List ℕ) (w : Ptr → ℕ)
    → Has h qd s
    → Owned h (λ q. one qd.self q + (one qd.buffer q + w q))
    → (h' : Heap) × (queue_data_de_init h qd ≡ ok h') × Owned h' w × Kept w h h'
unfolding queue_data_de_init
queue_data_de_init-Owned h qd s w v own =
    let (h1, e1, own1, kept1) =
      free-Owned h qd.buffer (λ q. one qd.self q + w q) v.buffer_there
        (λ q. omega (arith, own q)) in
    let (h2, e2, own2, kept2) = free-Owned h1 qd.self w v.self_there own1 in
    let there : (qd.buffer == null) ≡ false = ground (arith, v.buffer_there) in
    let full : ltb 0 qd.size ≡ true = ground (arith, v.size_right, v.not_empty) in
    (h2, simp (there, full, e1, e2), own2, Kept-trans (λ q l. kept1 q (omega (arith, l))) kept2)
