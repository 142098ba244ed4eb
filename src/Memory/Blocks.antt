-- ===== src/Memory/Blocks.antt =====
-- Who owns the blocks, and what SETVAL and FREEVAL do to them.
use mathlib.Core.Path.{fun_ext}
use bdremote_ng.Prelude.{
  ℕ, ◌+◌, ◌<◌, ◌≤◌, ◌≡◌, ◌≢◌, inl, inr, refl, ltb, ◌==◌, if◌then◌else◌, Bool-cases, Option-cases,
  ℕ_discrete, true, false, Option, none, some, length, Outcome, ok, stop, no_memory, arith, ◌∙◌, ap,
}
use bdremote_ng.Text.{CString}
use bdremote_ng.Memory.{
  Block, Ptr, null, Heap, Allocator, write, free, read, strcpy, free_val, allocate, store_new, copy,
  set_val,
}

-- whether there is a block at an address
abbrev is_there : Option Block → ℕ
is_there none = 0
is_there (some b) = 1

abbrev pub live : Heap → Ptr → ℕ
live h q = is_there (h q)

-- what the pointer `p` adds to the owners of the block at `q`
abbrev pub one : Ptr → Ptr → ℕ
one p q = if p == null then 0 else if p == q then 1 else 0

pub one_self : (p : Ptr) → p ≢ null → one p p ≡ 1
one_self p ne = ground arith

-- Each block has just one owner, of `w` many, and each owner a block.
abbrev pub Owned : Heap → (Ptr → ℕ) → Type 0
Owned h w = (q : Ptr) → live h q ≡ w q

-- What `rest` owns is the same as before.
abbrev pub Kept : (Ptr → ℕ) → Heap → Heap → Type 0
Kept rest h h' = (q : Ptr) → 0 < rest q → h' q ≡ h q

-- The pointer is NULL if there is no string, else it points to a block with the string.
abbrev pub Points : Heap → Ptr → Option CString → Type 0
Points h p none = p ≡ null
Points h p (some s) = (p ≢ null) × (read h p ≡ ok s)

live-le : (h : Heap) (q : Ptr) → live h q ≤ 1
live-le h q = ground arith

pub Points-Kept :
    {h h' : Heap} (rest : Ptr → ℕ) (p : Ptr) (o : Option CString)
    → Kept rest h h'
    → (p ≢ null → 0 < rest p)
    → Points h p o
    → Points h' p o
unfolding read
Points-Kept rest p none k own e = e
Points-Kept rest p (some s) k own e = ground (arith, k p)

pub write_self : (h : Heap) (p : Ptr) (b : Option Block) → write h p b p ≡ b
unfolding write
write_self h p b = let e : (p == p) ≡ true = ground arith in rw e refl

pub write_other : (h : Heap) (p : Ptr) (b : Option Block) (q : Ptr) → q ≢ p → write h p b q ≡ h q
unfolding write
write_other h p b q ne = let e : (q == p) ≡ false = ground arith in rw e refl

-- Freeing a block that has one owner.
live-free :
    (h : Heap) (p : Ptr) (rest : Ptr → ℕ)
    → p ≢ null
    → Owned h (λ q. one p q + rest q)
    → Owned (write h p none) rest
live-free h p rest ne own q = elim (ℕ_discrete q p) [
  | yes e ↦ rw e (ap is_there (write_self h p none) ∙ ground (arith, own p, live-le h p))
  | no other ↦ ap is_there (write_other h p none q other) ∙ ground (arith, own q)
]

Kept-free :
    (h : Heap) (p : Ptr) (rest : Ptr → ℕ)
    → p ≢ null
    → Owned h (λ q. one p q + rest q)
    → Kept rest h (write h p none)
Kept-free h p rest ne own q l = elim (ℕ_discrete q p) [
  | yes e ↦ absurd (ground (arith, own p, live-le h p))
  | no other ↦ write_other h p none q other
]

block_at : (h : Heap) (p : Ptr) → 0 < live h p → (b : Block) × (h p ≡ some b)
block_at h p l = elim (Option-cases (h p)) [ inl e ↦ absurd (ground arith) | inr found ↦ found ]

-- FREEVAL on a pointer that owns its block frees that block, and no other.
pub free_val-Owned :
    (h : Heap) (p : Ptr) (rest : Ptr → ℕ)
    → Owned h (λ q. one p q + rest q)
    → (h' : Heap) × (free_val h p ≡ ok h') × Owned h' rest × Kept rest h h'
unfolding free_val free
free_val-Owned h p rest own = elim (Bool-cases (p == null)) [
  | inl nothing ↦ (h, rw nothing refl, (λ q. ground (arith, own q)), (λ q l. refl))
  | inr block ↦
      let ne : p ≢ null = ground arith in
      let (b, e) = block_at h p (ground (arith, own p)) in
      (
        write h p none,
        rw (block, e, free) refl,
        live-free h p rest ne own,
        Kept-free h p rest ne own,
      )
]

-- free on such a pointer
pub free-Owned :
    (h : Heap) (p : Ptr) (rest : Ptr → ℕ)
    → p ≢ null
    → Owned h (λ q. one p q + rest q)
    → (h' : Heap) × (free h p ≡ ok h') × Owned h' rest × Kept rest h h'
unfolding free_val
free-Owned h p rest ne own =
    let (h', e, own', kept) = free_val-Owned h p rest own in
    let there : (p == null) ≡ false = ground arith in (h', simp there at e, own', kept)

-- A field has been given its own block with the string, or malloc had no memory.
pub data Stored (a : Allocator) (h : Heap) (s : CString) (rest : Ptr → ℕ)
    : Outcome (Ptr × Heap) → Type 0 where
  stored :
      (p : Ptr) (h' : Heap)
      → p ≢ null
      → read h' p ≡ ok s
      → Owned h' (λ q. one p q + rest q)
      → Kept rest h h'
      → Stored a h s rest (ok (p, h'))
  no_room : (g : Heap) (n : ℕ) → a.malloc g n ≡ null → Stored a h s rest (stop no_memory)

-- Taking a new block.
pub live-write :
    (h : Heap) (p : Ptr) (b : Block) (rest : Ptr → ℕ)
    → p ≢ null
    → h p ≡ none
    → Owned h rest
    → Owned (write h p (some b)) (λ q. one p q + rest q)
live-write h p b rest ne unused own q = elim (ℕ_discrete q p) [
  | yes e ↦ rw e (ap is_there (write_self h p (some b)) ∙ ground (arith, own p))
  | no other ↦ ap is_there (write_other h p (some b) q other) ∙ ground (arith, own q)
]

pub Kept-write :
    (h : Heap) (p : Ptr) (b : Block) (rest : Ptr → ℕ)
    → h p ≡ none
    → Owned h rest
    → Kept rest h (write h p (some b))
Kept-write h p b rest unused own q l = elim (ℕ_discrete q p) [
  | yes e ↦ absurd (ground (arith, own p))
  | no other ↦ write_other h p (some b) q other
]

pub write-write : (h : Heap) (p : Ptr) (b c : Option Block) → write (write h p b) p c ≡ write h p c
unfolding write
write-write h p b c =
    fun_ext λ q. elim (Bool-cases (q == p)) [ inl e ↦ rw e refl | inr e ↦ rw e refl ]

-- strcpy into a new block that has room for the string and its NUL
strcpy-new :
    (h : Heap) (p : Ptr) (s : CString) (size : ℕ)
    → length s < size
    → strcpy (write h p (some (record { size = size; text = none }))) p s
      ≡ ok (write h p (some (record { size = size; text = some s })))
unfolding strcpy
strcpy-new h p s size fits =
    let e = write_self h p (some (record { size = size; text = none })) in
    let room : ltb (length s) size ≡ true = ground arith in
    rw (e, strcpy, room) (ap ok (write-write h p _ _))

pub read_self :
    (h : Heap) (p : Ptr) (s : CString) (size : ℕ)
    → read (write h p (some (record { size = size; text = some s }))) p ≡ ok s
unfolding read
read_self h p s size = rw (write_self h p (some (record { size = size; text = some s })), read) refl

pub Kept-trans :
    {rest : Ptr → ℕ} {h h1 h2 : Heap} → Kept rest h h1 → Kept rest h1 h2 → Kept rest h h2
Kept-trans k k1 q l = k1 q l ∙ k q l

Stored-earlier :
    {a : Allocator} {h h1 : Heap} {s : CString} {rest : Ptr → ℕ} {r : Outcome (Ptr × Heap)}
    → Kept rest h h1
    → Stored a h1 s rest r
    → Stored a h s rest r
Stored-earlier k (stored p h' ne e own k1) = stored p h' ne e own (Kept-trans k k1)
Stored-earlier k (no_room g n e) = no_room g n e

module _ (a : Allocator) where
  -- A new block that has room for the string.
  pub store_new-Stored :
      (h : Heap) (s : CString) (size : ℕ) (rest : Ptr → ℕ)
      → length s < size
      → Owned h rest
      → Stored a h s rest (store_new a h size s)
  unfolding store_new allocate
  store_new-Stored h s size rest fits own = elim (Bool-cases (a.malloc h size == null)) [
    | inl refused ↦ rw refused (no_room h size (ground arith))
    | inr given ↦
        let p = a.malloc h size in
        let b : Block = record { size = size; text = some s } in
        let ne : p ≢ null = ground arith in
        rw (given, strcpy-new h p s size fits)
          (stored p (write h p (some b)) ne (read_self h p s size)
            (live-write h p b rest ne (a.is_fresh h size ne) own)
            (Kept-write h p b rest (a.is_fresh h size ne) own))
  ]

  pub copy-Stored :
      (h : Heap) (s : CString) (rest : Ptr → ℕ) → Owned h rest → Stored a h s rest (copy a h s)
  unfolding copy
  copy-Stored h s rest own = store_new-Stored h s (length s + 1) rest (omega arith) own

  -- SETVAL on a field that owns its block, or is NULL.
  pub set_val-Stored :
      (h : Heap) (p : Ptr) (s : CString) (rest : Ptr → ℕ)
      → Owned h (λ q. one p q + rest q)
      → Stored a h s rest (set_val a h p s)
  unfolding set_val
  set_val-Stored h p s rest own =
      let (h1, e, own1, kept) = free_val-Owned h p rest own in
      rw e (Stored-earlier kept (copy-Stored h1 s rest own1))
