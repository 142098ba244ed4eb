-- ===== src/Queue/Holds.antt =====
-- What list the ring of q.c holds.
use bdremote_ng.Prelude.{
  ℕ, zero, suc, ◌+◌, ◌-◌, ◌<◌, ◌≡◌, refl, ap, ap₂, ◌∙◌, sym, true, false, Option, some, none, List,
  [], ◌∷◌, ◌++◌, map, arith, length, get_or, set, ltb, if◌then◌else◌, get_or-set_self,
  get_or-set_ne,
}
use bdremote_ng.Queue.{Queue, queue_size, queue_init, put, take_out, next_index}
use bdremote_ng.Queue.Inv.{
  count, IsValid, queue_init-IsValid, put-IsValid, take_out-IsValid, count-put, count-take_out,
}

-- the index `n` slots after `h`
abbrev advance : ℕ → ℕ → ℕ
advance h n = if ltb (h + n) queue_size then h + n else h + n - queue_size

module _ {ℓ} {A : Type ℓ} where
  -- the `n` slots from index `h` on, going round at the end of the array
  pub window : List (Option A) → ℕ → ℕ → List (Option A)
  window buf h zero = []
  window buf h (suc n) = get_or buf h none ∷ window buf (next_index h) n

  -- Writing just past a window extends it by that slot.
  window-set :
      (buf : List (Option A)) (v : Option A) (n h i : ℕ)
      → length buf ≡ queue_size
      → h < queue_size
      → n < queue_size
      → i ≡ advance h n
      → window (set buf i v) h (suc n) ≡ window buf h n ++ (v ∷ [])
  unfolding window
  window-set buf v zero h i slots hh hn e =
      let here : i ≡ h = ground arith in
      rw here (ap (λ s. s ∷ []) (get_or-set_self buf h v none (omega arith)))
  window-set buf v (suc n) h i slots hh hn e =
      ap₂ ◌∷◌ (get_or-set_ne buf v none (ground arith))
        (window-set buf v n (next_index h) i slots (ground arith) (omega arith) (ground arith))

  length-window : (buf : List (Option A)) (h n : ℕ) → length (window buf h n) ≡ n
  unfolding window
  length-window buf h zero = refl
  length-window buf h (suc n) = ap suc (length-window buf (next_index h) n)

  pub length-map-some : (xs : List A) → length (map some xs) ≡ length xs
  length-map-some [] = refl
  length-map-some (x ∷ xs) = ap suc (length-map-some xs)

  pub map-some-append :
      (xs : List A) (x : A) → map some xs ++ (some x ∷ []) ≡ map some (xs ++ (x ∷ []))
  map-some-append [] x = refl
  map-some-append (y ∷ xs) x = ap (◌∷◌ (some y)) (map-some-append xs x)

-- `q` holds `xs`, oldest first, and every slot that it will read has been written.
pub record Holds {ℓ} {A : Type ℓ} (q : Queue A) (xs : List A) : Type ℓ where
  pub valid : IsValid q
  pub slots : window q.buf q.head (count q) ≡ map some xs

module _ {ℓ} {A : Type ℓ} where
  pub Holds-queue_init : Holds (queue_init {A = A}) []
  unfolding queue_init window
  Holds-queue_init = record { valid = queue_init-IsValid; slots = refl }

  pub count-Holds : {q : Queue A} {xs : List A} → Holds q xs → count q ≡ length xs
  count-Holds {q} {xs} h =
      sym (length-window q.buf q.head (count q)) ∙ ap length h.slots ∙ length-map-some xs

  window-put :
      {q : Queue A} (x : A)
      → IsValid q
      → q.full ≡ false
      → window (put q x).buf q.head (count q + 1) ≡ window q.buf q.head (count q) ++ (some x ∷ [])
  unfolding put
  window-put {q} x v free =
      ap (window _ q.head) (omega arith)
      ∙ window-set q.buf (some x) (count q) q.head q.tail v.slots v.head_in (ground arith)
          (ground arith)

  pub Holds-put :
      {q : Queue A} {xs : List A} (x : A)
      → Holds q xs
      → q.full ≡ false
      → Holds (put q x) (xs ++ (x ∷ []))
  unfolding put
  Holds-put {q} {xs} x h free = record {
    valid = put-IsValid x h.valid free;
    slots =
        ap (window (set q.buf q.tail (some x)) q.head) (count-put x h.valid free)
        ∙ window-put x h.valid free
        ∙ ap (λ s. s ++ (some x ∷ [])) h.slots
        ∙ map-some-append xs x;
  }

  -- Both ends of one removal: the slot that is read, and what is left.
  window-take_out :
      {q : Queue A}
      → IsValid q
      → q.empty ≡ false
      → window q.buf q.head (count q)
        ≡ (take_out q).0 ∷ window (take_out q).1.buf (take_out q).1.head (count (take_out q).1)
  unfolding window take_out
  window-take_out {q} v left =
      let e : count q ≡ suc (count (take_out q).1) = omega (arith, count-take_out v left) in
      ap (window q.buf q.head) e

  pub not-empty-Holds : {q : Queue A} {x : A} {xs : List A} → Holds q (x ∷ xs) → q.empty ≡ false
  not-empty-Holds h = ground (arith, count-Holds h)

  pub take_out-Holds :
      {q : Queue A} {x : A} {xs : List A}
      → Holds q (x ∷ xs)
      → ((take_out q).0 ≡ some x) × Holds (take_out q).1 xs
  take_out-Holds {q} {x} {xs} h =
      (cc both, record { valid = take_out-IsValid h.valid left; slots = cc both })
    where
      left : q.empty ≡ false
      left = not-empty-Holds h

      both :
          (take_out q).0 ∷ window (take_out q).1.buf (take_out q).1.head (count (take_out q).1)
          ≡ some x ∷ map some xs
      both = sym (window-take_out h.valid left) ∙ h.slots

  pub Holds-empty : {q : Queue A} → Holds q [] → q.empty ≡ true
  Holds-empty h = ground (arith, count-Holds h)
