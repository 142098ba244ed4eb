-- ===== src/Memory/Packets/Handed.antt =====
-- Packets reach handleKey in order and unchanged, and their memory is given back.
use bdremote_ng.Prelude.{
  ℕ, ◌+◌, ◌≡◌, refl, sym, ap, ◌∙◌, arith, true, none, List, [], ◌∷◌, ◌++◌, All, append-nil,
}
use bdremote_ng.Queue.{Queue}
use bdremote_ng.Queue.Holds.{Holds, not-empty-Holds}
use bdremote_ng.Memory.{Ptr, Heap, Allocator}
use bdremote_ng.Memory.Goes.{Goes, Goes-mono}
use bdremote_ng.Memory.Blocks.{live}
use bdremote_ng.Memory.Packets.{Packet, Hands, at_start, Event, steps}
use bdremote_ng.Memory.Packets.Row.{Row, owners}
use bdremote_ng.Memory.Packets.Moves.{in_hand, Handed, NotEmpty, at_start-Handed, steps-Handed}

-- No packet is on its way.
abbrev pub IsIdle : Hands → Type 0
IsIdle m = (m.pending ≡ none) × (m.current ≡ none) × (m.queue.empty ≡ true)

nothing_inside : {q : Queue Packet} (xs : List Packet) → Holds q xs → q.empty ≡ true → xs ≡ []
nothing_inside [] h e = refl
nothing_inside (x ∷ xs) h e = cc (not-empty-Holds h)

Row-empty :
    (h : Heap) (row : List Packet) (bytes : List (List ℕ)) → Row h row bytes → row ≡ [] → bytes ≡ []
Row-empty h [] [] r e = refl
Row-empty h [] (s ∷ bytes) r e = elim r [ ]
Row-empty h (qd ∷ row) bytes r e = cc e

idle_row : {h0 : Heap} (m : Hands) (v : Handed h0 m) → IsIdle m → v.row ≡ []
idle_row m v (no_pending, no_current, nothing) =
    v.is_row
    ∙ ap (λ c. in_hand c ++ (v.inside ++ in_hand m.pending)) no_current
    ∙ ap (λ l. l ++ in_hand m.pending) (nothing_inside v.inside v.holds nothing)
    ∙ ap in_hand no_pending

-- The two threads, in whatever order they take their steps from a queue that queueInit has made, and
-- with packets that are not empty, pass packets on without a failed assert and without a use of
-- what is no block, unless malloc has no memory: what handleKey has been given, followed by the bytes
-- of the packets on their way, is what DataInd was called with, in order and unchanged, and just the
-- two blocks of each packet on its way are taken. When no packet is on its way, handleKey has been
-- given all, and the heap has the blocks of before.
pub packets-Handed :
    (a : Allocator) (es : List Event) (h : Heap)
    → All NotEmpty es
    → Goes a
        (λ m.
          Handed h m × (IsIdle m → (m.handled ≡ m.told) × ((q : Ptr) → live m.heap q ≡ live h q)))
        (steps a es (at_start h))
packets-Handed a es h some_bytes =
    Goes-mono (steps-Handed es (at_start h) some_bytes (at_start-Handed h)) λ m v. (
      v,
      (λ idle.
          let no_row = idle_row m v idle in
          let no_bytes = Row-empty m.heap v.row v.bytes v.there no_row in
          (
            sym (append-nil m.handled) ∙ ap (λ l. m.handled ++ l) (sym no_bytes) ∙ v.in_order,
            (λ q. v.owned q ∙ ap (λ r. owners r q + live h q) no_row ∙ omega arith),
          )),
    )
