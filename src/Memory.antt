-- ===== src/Memory.antt =====
-- The memory that malloc gives, and SETVAL and FREEVAL of src/globaldefs.h. malloc and free are the C
-- library's: malloc is a parameter, and a use of what is no block ends the process.
pub mod Blocks
pub mod Goes
pub mod Settings
pub mod Life
pub mod Packets
use bdremote_ng.Prelude.{
  ℕ, ◌+◌, ◌≡◌, ◌≢◌, ltb, ◌==◌, if◌then◌else◌, Option, none, some, length, Outcome, ok, stop,
  bad_memory, no_memory, out_of_bounds, ◌>>=◌,
}
use bdremote_ng.Text.{CString}

-- A block of `size` bytes. The string in it is `none` until one is written.
pub record Block : Type 0 where
  pub size : ℕ
  pub text : Option CString

abbrev pub Ptr : Type 0
Ptr = ℕ

-- NULL
abbrev pub null : Ptr
null = 0

abbrev pub Heap : Type 0
Heap = Ptr → Option Block

-- malloc gives an address for a number of bytes, or NULL. It gives no block twice: ISO C.
pub record Allocator : Type 0 where
  pub malloc : Heap → ℕ → Ptr
  pub is_fresh : (h : Heap) (n : ℕ) → malloc h n ≢ null → h (malloc h n) ≡ none

unfoldable pub write : Heap → Ptr → Option Block → Heap
write h p b q = if q == p then b else h q

-- free(p), for a `p` that is not NULL
unfoldable pub free : Heap → Ptr → Outcome Heap
free h p = elim (h p) [ none ↦ stop bad_memory | some b ↦ ok (write h p none) ]

-- The string at `p`: strlen and the reading side of strcpy.
unfoldable pub read : Heap → Ptr → Outcome CString
read h p = elim (h p) [
  | none ↦ stop bad_memory
  | some b ↦ elim b.text [ none ↦ stop bad_memory | some s ↦ ok s ]
]

-- strcpy(p, s), with the final NUL
unfoldable pub strcpy : Heap → Ptr → CString → Outcome Heap
strcpy h p s = elim (h p) [
  | none ↦ stop no_memory
  | some b ↦
      if ltb (length s) b.size
      then ok (write h p (some (record { size = b.size; text = some s })))
      else stop out_of_bounds
]

-- FREEVAL; the field is NULL behind it
unfoldable pub free_val : Heap → Ptr → Outcome Heap
free_val h p = if p == null then ok h else free h p

module _ (a : Allocator) where
  -- a block of `n` bytes; none is there at NULL
  unfoldable pub allocate : Heap → ℕ → Ptr × Heap
  allocate h n =
      let p = a.malloc h n in
      (p, if p == null then h else write h p (some (record { size = n; text = none })))

  -- malloc(n), and a string that is written there
  unfoldable pub store_new : Heap → ℕ → CString → Outcome (Ptr × Heap)
  store_new h n s =
      let (p, h1) = allocate h n in
      if p == null then stop no_memory else strcpy h1 p s >>= (λ h2. ok (p, h2))

  -- the last two lines of SETVAL
  unfoldable pub copy : Heap → CString → Outcome (Ptr × Heap)
  copy h s = store_new h (length s + 1) s

  -- SETVAL: the new pointer of a field that held `p`
  unfoldable pub set_val : Heap → Ptr → CString → Outcome (Ptr × Heap)
  set_val h p s = free_val h p >>= λ h1. copy h1 s
