-- ===== src/Family.antt =====
-- Families of states indexed by thread: a change at one index, and weights summed over the first
-- `n` threads.
use bdremote_ng.Prelude.{ℕ, zero, suc, ◌+◌, ◌<◌, ◌≤◌, ◌≡◌, ◌≢◌, ◌==◌, refl, arith, if◌then◌else◌}
use native.Mathlib.Decide.{dec_lt}

abbrev pub update {ℓ} : {A : Type ℓ} → (ℕ → A) → ℕ → A → ℕ → A
update f i a j = if i == j then a else f j

module _ {ℓ} {A : Type ℓ} (weight : A → ℕ) where
  pub total : ℕ → (ℕ → A) → ℕ
  total zero f = 0
  total (suc n) f = weight (f n) + total n f

  -- A change above the range of a sum leaves the sum alone.
  total_above : (n : ℕ) (f : ℕ → A) (i : ℕ) (a : A) → n ≤ i → total n (update f i a) ≡ total n f
  unfolding total
  total_above zero f i a h = refl
  total_above (suc n) f i a h = ground (arith, total_above n f i a)

  pub total-update :
      (n : ℕ) (f : ℕ → A) (i : ℕ) (a : A)
      → i < n
      → total n (update f i a) + weight (f i) ≡ total n f + weight a
  unfolding total
  total-update zero f i a h = elim h [ ]
  total-update (suc n) f i a h = elim (dec_lt i n) [
    | yes below ↦ ground (arith, total-update n f i a below)
    | no at_top ↦ ground (arith, total_above n f i a)
  ]

  -- Two threads change at once.
  pub total-update_two :
      (n : ℕ) (f : ℕ → A) (i j : ℕ) (a b : A)
      → i < n
      → j < n
      → i ≢ j
      → total n (update (update f i a) j b) + weight (f i) + weight (f j)
        ≡ total n f + weight a + weight b
  total-update_two n f i j a b hi hj ne =
      ground (arith, total-update n f i a hi, total-update n (update f i a) j b hj)

  pub weight-le-total : (n : ℕ) (f : ℕ → A) (i : ℕ) → i < n → weight (f i) ≤ total n f
  unfolding total
  weight-le-total zero f i h = elim h [ ]
  weight-le-total (suc n) f i h = elim (dec_lt i n) [
    | yes below ↦ ground (arith, weight-le-total n f i below)
    | no at_top ↦ ground arith
  ]

  -- A positive sum has a thread that adds to it.
  pub total-pos : (n : ℕ) (f : ℕ → A) → 0 < total n f → (i : ℕ) × (i < n) × (0 < weight (f i))
  unfolding total
  total-pos zero f h = absurd (omega arith)
  total-pos (suc n) f h = elim (dec_lt 0 (weight (f n))) [
    | yes here ↦ (n, omega arith, here)
    | no elsewhere ↦ let (i, lt, w) = total-pos n f (omega arith) in (i, omega arith, w)
  ]
