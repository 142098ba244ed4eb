-- ===== src/Fifo.antt =====
-- What the queue of src/q.c promises: a first-in first-out list of at most QUEUESIZE elements,
-- oldest first.
use bdremote_ng.Prelude.{
  ℕ, Bool, Option, none, some, List, [], ◌∷◌, ◌++◌, ◌==◌, length, if◌then◌else◌,
}

abbrev pub capacity : ℕ
capacity = 254

-- How a removal with a time limit ends.
pub data Taken {ℓ} (A : Type ℓ) : Type ℓ where
  taken : A → List A → Taken A
  expired : List A → Taken A
  blocked : Taken A

module _ {ℓ} {A : Type ℓ} where
  -- `none`: there is no room, the caller waits
  unfoldable pub add : List A → A → Option (List A)
  add xs x = if length xs == capacity then none else some (xs ++ (x ∷ []))

  -- `none`: there is nothing, the caller waits
  unfoldable pub remove : List A → Option (A × List A)
  remove [] = none
  remove (x ∷ xs) = some (x, xs)

  -- The waits end one after another: whether by the time limit, and with what content.
  unfoldable pub remove_within : List A → List (Bool × List A) → Taken A
  remove_within (x ∷ xs) waits = taken x xs
  remove_within [] [] = blocked
  remove_within [] ((late, ys) ∷ waits) =
      let rest = remove_within ys waits in if late then expired ys else rest
