-- ===== src/Lirc/Broadcast/Pass.antt =====
-- One pass over a list of clients, and lists of distinct clients.
use bdremote_ng.Prelude.{
  ℕ, zero, suc, ◌<◌, ◌≡◌, ◌≢◌, refl, ap, arith, ℤ, pos, Bool, false, ◌||◌, List, [], ◌∷◌, ◌++◌,
  get_or, take, length, eq_ℤ, eq_ℤ_iff, ltb_ℤ, if◌then◌else◌, All, Outcome, ok, ◌>>=◌,
}
use bdremote_ng.Sys.{Env, Trace}
use bdremote_ng.Lirc.Socket.{write_socket}
use bdremote_ng.Lirc.Clients.{hang_up}
use bdremote_ng.Lirc.Clients.Table.{erase_first}

abbrev pub is_in : ℤ → List ℤ → Bool
is_in fd [] = false
is_in fd (x ∷ xs) = eq_ℤ x fd || is_in fd xs

abbrev pub Distinct : List ℤ → Type 0
Distinct [] = Unit
Distinct (x ∷ xs) = (is_in x xs ≡ false) × Distinct xs

-- One write to each client in turn; a client that it fails for is hung up on and left out.
unfoldable pub send_each : Env → List ℕ → List ℤ → Trace → Outcome (List ℤ × Trace)
send_each env msg [] t = ok ([], t)
send_each env msg (fd ∷ fds) t = write_socket env fd msg t >>= (λ p.
    if ltb_ℤ p.0 (pos (length msg))
    then send_each env msg fds (hang_up env fd p.1)
    else send_each env msg fds p.1 >>= (λ q. ok (fd ∷ q.0, q.1)))

pub get_or-append : (xs ys : List ℤ) (y e : ℤ) → get_or (xs ++ (y ∷ ys)) (length xs) e ≡ y
get_or-append [] ys y e = refl
get_or-append (x ∷ xs) ys y e = get_or-append xs ys y e

pub get_or-take : (xs : List ℤ) (n i : ℕ) (e : ℤ) → i < n → get_or (take n xs) i e ≡ get_or xs i e
get_or-take xs zero i e h = absurd (omega arith)
get_or-take [] (suc n) i e h = refl
get_or-take (x ∷ xs) (suc n) zero e h = refl
get_or-take (x ∷ xs) (suc n) (suc i) e h = get_or-take xs n i e (omega arith)

pub erase_first-append :
    (xs ys : List ℤ) (fd : ℤ) → is_in fd xs ≡ false → erase_first fd (xs ++ (fd ∷ ys)) ≡ xs ++ ys
unfolding erase_first
erase_first-append [] ys fd h = rw ((eq_ℤ_iff fd fd).1 refl)
erase_first-append (x ∷ xs) ys fd h =
    let other : eq_ℤ x fd ≡ false = ground arith in
    rw other (ap (◌∷◌ x) (erase_first-append xs ys fd (ground arith)))

is_in-snoc :
    (xs : List ℤ) (y fd : ℤ) → is_in fd xs ≡ false → y ≢ fd → is_in fd (xs ++ (y ∷ [])) ≡ false
is_in-snoc [] y fd h ne = ground (arith, eq_ℤ_iff y fd)
is_in-snoc (x ∷ xs) y fd h ne = ground (arith, is_in-snoc xs y fd)

-- None of `todo` stands in `done`.
abbrev pub Apart : List ℤ → List ℤ → Type 0
Apart done todo = All (λ fd. is_in fd done ≡ false) todo

pub Apart-snoc :
    (done todo : List ℤ) (fd : ℤ)
    → Apart done todo
    → is_in fd todo ≡ false
    → Apart (done ++ (fd ∷ [])) todo
Apart-snoc done [] fd a h = tt
Apart-snoc done (x ∷ todo) fd a h = (
  is_in-snoc done fd x a.0 (ground (arith, eq_ℤ_iff x fd)),
  Apart-snoc done todo fd a.1 (ground arith),
)
