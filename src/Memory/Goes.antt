-- ===== src/Memory/Goes.antt =====
-- Results that depend on malloc having memory.
use bdremote_ng.Prelude.{ℕ, ◌≡◌, Outcome, ok, stop, no_memory, ◌>>=◌}
use bdremote_ng.Memory.{Heap, Allocator, null}

-- The computation goes through with a result that satisfies `P`, unless malloc has no memory.
pub data Goes (a : Allocator) {A : Type 0} (P : A → Type 0) : Outcome A → Type 0 where
  goes : {x : A} → P x → Goes a P (ok x)
  no_room : (g : Heap) (n : ℕ) → a.malloc g n ≡ null → Goes a P (stop no_memory)

pub Goes-bind :
    {a : Allocator} {A B : Type 0} {P : A → Type 0} {Q : B → Type 0} {r : Outcome A}
    (next : A → Outcome B)
    → Goes a P r
    → ((x : A) → P x → Goes a Q (next x))
    → Goes a Q (r >>= next)
Goes-bind next (goes p) k = k _ p
Goes-bind next (no_room g n e) k = no_room g n e

pub Goes-mono :
    {a : Allocator} {A : Type 0} {P Q : A → Type 0} {r : Outcome A}
    → Goes a P r
    → ((x : A) → P x → Q x)
    → Goes a Q r
Goes-mono (goes p) k = goes (k _ p)
Goes-mono (no_room g n e) k = no_room g n e
