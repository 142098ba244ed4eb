-- ===== src/Prelude/Outcomes.antt =====
-- Computations that may end the process: a failed assert, a read or write outside an array, a use of
-- memory that is not there (free or a read of what is no block; a write through the NULL of a malloc
-- that had no memory), or a call of exit.
use Prim.Native.Nat.{ℕ}
use mathlib.Core.Path.{◌≡◌, refl}
use mathlib.Core.Bool.{Bool, true, false}
use mathlib.Core.Option.{Option, none, some}

pub data Fault : Type 0 where
  assertion : Fault
  out_of_bounds : Fault
  out_of_fuel : Fault
  bad_memory : Fault
  no_memory : Fault
  exited : ℕ → Fault

pub data Outcome {ℓ} (A : Type ℓ) : Type ℓ where
  ok : A → Outcome A
  stop : Fault → Outcome A

infixl 5 ◌>>=◌ ◌>>◌
abbrev pub ◌>>=◌ {ℓ κ} : {A : Type ℓ} {B : Type κ} → Outcome A → (A → Outcome B) → Outcome B
ok a >>= f = f a
stop e >>= f = stop e

abbrev pub ◌>>◌ {ℓ} : {B : Type ℓ} → Outcome (Unit {0}) → Outcome B → Outcome B
m >> k = m >>= λ _. k

-- `assert(b)`
abbrev pub assert : Bool → Outcome (Unit {0})
assert true = ok tt
assert false = stop assertion

-- a read of an array at an index that must lie inside
abbrev pub in_bounds {ℓ} : {A : Type ℓ} → Option A → Outcome A
in_bounds (some a) = ok a
in_bounds none = stop out_of_bounds

pub ok-injective {ℓ} : {A : Type ℓ} {a b : A} → ok a ≡ ok b → a ≡ b
ok-injective e = cc

pub >>=-of-ok {ℓ κ} :
    {A : Type ℓ} {B : Type κ} (m : Outcome A) (f : A → Outcome B) {a : A}
    → m ≡ ok a
    → (m >>= f) ≡ f a
>>=-of-ok m f e = rw e refl

-- What a successful chain went through.
pub >>=-eq-ok {ℓ κ} :
    {R : Type ℓ} {S : Type κ} (first : Outcome R) (rest : R → Outcome S) {final : S}
    → (first >>= rest) ≡ ok final
    → (middle : R) × (first ≡ ok middle) × (rest middle ≡ ok final)
>>=-eq-ok (ok middle) rest e = (middle, refl, e)
>>=-eq-ok (stop fault) rest e = cc

-- The computation goes through, with a result that satisfies `P`.
abbrev pub Returns : {A : Type 0} → (A → Type 0) → Outcome A → Type 0
Returns P (ok a) = P a
Returns P (stop e) = ⊥

pub Returns-bind :
    {A B : Type 0} (P : A → Type 0) (Q : B → Type 0) (m : Outcome A) (f : A → Outcome B)
    → Returns P m
    → ((a : A) → P a → Returns Q (f a))
    → Returns Q (m >>= f)
Returns-bind P Q (ok a) f h k = k a h
Returns-bind P Q (stop e) f h k = elim h [ ]

pub Returns-mono :
    {A : Type 0} (P Q : A → Type 0) (m : Outcome A)
    → Returns P m
    → ((a : A) → P a → Q a)
    → Returns Q m
Returns-mono P Q (ok a) h k = k a h
Returns-mono P Q (stop e) h k = h

-- If the computation goes through, its result satisfies `P`.
abbrev pub Ensures : {A : Type 0} → (A → Type 0) → Outcome A → Type 0
Ensures P (ok a) = P a
Ensures P (stop e) = Unit

pub Ensures-bind :
    {A B : Type 0} (P : A → Type 0) (Q : B → Type 0) (m : Outcome A) (f : A → Outcome B)
    → Ensures P m
    → ((a : A) → P a → Ensures Q (f a))
    → Ensures Q (m >>= f)
Ensures-bind P Q (ok a) f h k = k a h
Ensures-bind P Q (stop e) f h k = tt

-- A step before, of which nothing is needed.
pub Ensures-after :
    {A B : Type 0} (Q : B → Type 0) (m : Outcome A) (f : A → Outcome B)
    → ((a : A) → Ensures Q (f a))
    → Ensures Q (m >>= f)
Ensures-after Q (ok a) f k = k a
Ensures-after Q (stop e) f k = tt
