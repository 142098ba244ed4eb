-- ===== src/Memory/Packets.antt =====
-- Packets in memory: queueDataInit and queueDataDeInit of src/q.c, and the way of a packet from the
-- Bluetooth thread (DataInd of src/lirc_callback.c) through the queue to the LIRC thread (the loop of
-- src/lirc_thr.c). The threads take their steps in any order; a step whose thread waits does nothing.
pub mod Row
pub mod Moves
pub mod Handed
use bdremote_ng.Prelude.{
  ℕ, ltb, ◌==◌, not, Bool, true, false, if◌then◌else◌, Option, none, some, List, [], ◌∷◌, ◌++◌,
  length, Outcome, ok, stop, no_memory, out_of_bounds, assert, ◌>>=◌, ◌>>◌,
}
use bdremote_ng.Queue.{Queue, queue_init, add_section, rem_section}
use bdremote_ng.Memory.{Ptr, null, Heap, Allocator, write, read, free, allocate}

-- `queueData*`: the block of the structure, and what it holds
pub record Packet : Type 0 where
  pub self : Ptr
  pub buffer : Ptr
  pub size : ℕ

-- `sizeof(queueData)`
abbrev pub queue_data_size : ℕ
queue_data_size = 16

-- What the two threads have in hand, the queue and the heap; and, for the theorems, what handleKey has
-- been given and what DataInd has been called with, oldest first.
pub record Hands : Type 0 where
  pub pending : Option Packet
  pub queue : Queue Packet
  pub current : Option Packet
  pub heap : Heap
  pub handled : List (List ℕ)
  pub told : List (List ℕ)

abbrev pub at_start : Heap → Hands
at_start h = record {
  pending = none;
  queue = queue_init;
  current = none;
  heap = h;
  handled = [];
  told = [];
}

-- A step: DataInd is called and copies the bytes, its queueAdd gets through, queueRemNonBlock hands
-- out a packet, the packet is handled and freed.
pub data Event : Type 0 where
  data_ind : List ℕ → Event
  queue_add : Event
  queue_rem : Event
  handle : Event

-- queueDataDeInit
unfoldable pub queue_data_de_init : Heap → Packet → Outcome Heap
queue_data_de_init h qd =
    assert (not (qd.buffer == null))
    >> (assert (ltb 0 qd.size) >> (free h qd.buffer >>= (λ h1. free h1 qd.self)))

-- the rest of DataInd
after_add : Option (Queue Packet) → Hands → Hands
after_add none m = m
after_add (some q) m = record m { pending = none; queue = q }

on_add : Option Packet → Hands → Hands
unfolding after_add
on_add none m = m
on_add (some qd) m = after_add (add_section m.queue qd) m

-- queueRemNonBlock, when it gives a packet
after_rem : Option (Option Packet × Queue Packet) → Hands → Outcome Hands
after_rem none m = ok m
after_rem (some (none, q)) m = stop out_of_bounds
after_rem (some (some qd, q)) m = ok (record m { current = some qd; queue = q })

on_rem : Option Packet → Hands → Outcome Hands
unfolding after_rem
on_rem (some qd) m = ok m
on_rem none m = after_rem (rem_section m.queue) m

-- handleKey reads the buffer, then the packet is freed
on_handle : Option Packet → Hands → Outcome Hands
on_handle none m = ok m
on_handle (some qd) m =
    assert (not (qd.buffer == null))
    >> (read m.heap qd.buffer >>= (λ s.
        queue_data_de_init m.heap qd
        >>= (λ h. ok (record m { current = none; heap = h; handled = m.handled ++ (s ∷ []) }))))

module _ (a : Allocator) where
  -- queueDataInit, once the structure is there: its buffer, and memcpy
  copy_bytes : Ptr → Heap → List ℕ → Outcome (Packet × Heap)
  copy_bytes self h s =
      let (buffer, h1) = allocate a h (length s) in
      if buffer == null
      then stop no_memory
      else ok (
        record { self = self; buffer = buffer; size = length s },
        write h1 buffer (some (record { size = length s; text = some s })),
      )

  -- queueDataInit, on the bytes that recv has stored
  unfoldable pub queue_data_init : Heap → List ℕ → Outcome (Packet × Heap)
  unfolding copy_bytes
  queue_data_init h s =
      let (self, h1) = allocate a h queue_data_size in
      if self == null then stop no_memory else copy_bytes self h1 s

  -- DataInd up to queueAdd; the Bluetooth thread has no other packet meanwhile
  on_data_ind : List ℕ → Option Packet → Hands → Outcome Hands
  on_data_ind s (some qd) m = ok m
  on_data_ind s none m = queue_data_init m.heap s >>= λ (qd, h).
      ok (record m { pending = some qd; heap = h; told = m.told ++ (s ∷ []) })

  unfoldable pub step : Event → Hands → Outcome Hands
  unfolding on_data_ind on_add on_rem on_handle
  step (data_ind s) m = on_data_ind s m.pending m
  step queue_add m = ok (on_add m.pending m)
  step queue_rem m = on_rem m.current m
  step handle m = on_handle m.current m

  unfoldable pub steps : List Event → Hands → Outcome Hands
  steps [] m = ok m
  steps (e ∷ es) m = step e m >>= steps es
