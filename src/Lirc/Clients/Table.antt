-- ===== src/Lirc/Clients/Table.antt =====
-- remove_client against the list of clients.
use bdremote_ng.Prelude.{
  ℕ, zero, suc, ◌+◌, ◌-◌, ◌<◌, ◌≤◌, ◌≡◌, ◌≢◌, refl, ap, sym, ◌∙◌, arith, ℤ, minus_one, false,
  Option, none, some, List, [], ◌∷◌, get_or, set, take, length, eq_ℤ, eq_ℤ_iff, if◌then◌else◌,
  Bool-cases, inl, inr,
}
use mathlib.Core.Option
use native.Mathlib.Numerals.{towards_suc, add-one}
use native.Mathlib.Nat.{suc-add, zero-add}
use bdremote_ng.Sys.{Env, Trace}
use bdremote_ng.Lirc.{LircData}
use bdremote_ng.Lirc.Clients.{
  hang_up, remove_found, find_client, shift_down, remove_client, clients,
}

-- The list without the first `fd`.
unfoldable pub erase_first : ℤ → List ℤ → List ℤ
erase_first fd [] = []
erase_first fd (x ∷ xs) = if eq_ℤ x fd then xs else x ∷ erase_first fd xs

-- Removing index `i` from a list.
abbrev pub remove_at : ℕ → List ℤ → List ℤ
remove_at i [] = []
remove_at zero (x ∷ xs) = xs
remove_at (suc i) (x ∷ xs) = x ∷ remove_at i xs

shift_down-suc :
    (x : ℤ) (xs : List ℤ) (i rounds : ℕ)
    → shift_down (x ∷ xs) (suc i) rounds ≡ x ∷ shift_down xs i rounds
unfolding shift_down
shift_down-suc x xs i zero = refl
shift_down-suc x xs i (suc rounds) =
    simp towards_suc (shift_down-suc x (set xs i (get_or xs (suc i) minus_one)) (suc i) rounds)

-- shifting from index `i` takes away what stood there
shift_down-remove_at :
    (xs : List ℤ) (i rounds : ℕ)
    → i + rounds < length xs
    → take (i + rounds) (shift_down xs i rounds) ≡ take (i + rounds) (remove_at i xs)
unfolding shift_down
shift_down-remove_at [] i rounds h = absurd (omega arith)
shift_down-remove_at (x ∷ xs) (suc i) rounds h =
    rw (shift_down-suc x xs i rounds, suc-add)
      (ap (◌∷◌ x) (shift_down-remove_at xs i rounds (omega arith)))
shift_down-remove_at (x ∷ xs) zero zero h = refl
shift_down-remove_at (x ∷ []) zero (suc rounds) h = absurd (omega arith)
shift_down-remove_at (x ∷ y ∷ xs) zero (suc rounds) h =
    let ih : take rounds (shift_down (y ∷ xs) 0 rounds) ≡ take rounds xs =
      simp zero-add at (shift_down-remove_at (y ∷ xs) 0 rounds (omega arith)) in
    rw zero-add (ap (take (suc rounds)) (shift_down-suc y (y ∷ xs) 0 rounds) ∙ ap (◌∷◌ y) ih)

suc-sub_one : (n : ℕ) → suc n - 1 ≡ n
suc-sub_one n = omega arith

-- What the search finds.
find_client-suc :
    (fd x : ℤ) (xs : List ℤ) (i rounds : ℕ)
    → find_client fd (x ∷ xs) (suc i) rounds ≡ Option.map suc (find_client fd xs i rounds)
unfolding find_client
find_client-suc fd x xs i zero = refl
find_client-suc fd x xs i (suc rounds) = elim (Bool-cases (eq_ℤ (get_or xs i minus_one) fd)) [
  | inl here ↦ rw here
  | inr elsewhere ↦ rw (elsewhere, add-one, add-one) (find_client-suc fd x xs (suc i) rounds)
]

-- The outcome of the search in the first `n` entries, with what an erasure makes of them.
pub data Search (fd : ℤ) (xs : List ℤ) (n : ℕ) : Option ℕ → Type 0 where
  absent : erase_first fd (take n xs) ≡ take n xs → Search fd xs n none
  present :
      {i : ℕ}
      → i < n
      → get_or xs i minus_one ≡ fd
      → erase_first fd (take n xs) ≡ take (n - 1) (remove_at i xs)
      → Search fd xs n (some i)

Search-suc :
    {fd x : ℤ} {xs : List ℤ} {n : ℕ} {o : Option ℕ}
    → eq_ℤ x fd ≡ false
    → Search fd xs n o
    → Search fd (x ∷ xs) (suc n) (Option.map suc o)
unfolding erase_first
Search-suc {x} ne (absent e) = absent (rw ne (ap (◌∷◌ x) e))
Search-suc {x} {n = suc n} ne (present lt at e) =
    present (omega arith) at (rw (ne, suc-sub_one (suc n)) (ap (◌∷◌ x) (rw suc-sub_one at e)))
Search-suc {n = zero} ne (present lt at e) = absurd (omega arith)

pub find_client-Search :
    (fd : ℤ) (xs : List ℤ) (n : ℕ) → n ≤ length xs → Search fd xs n (find_client fd xs 0 n)
unfolding find_client erase_first
find_client-Search fd xs zero h = absent refl
find_client-Search fd [] (suc n) h = absurd (omega arith)
find_client-Search fd (x ∷ xs) (suc n) h = elim (Bool-cases (eq_ℤ x fd)) [
  | inl here ↦ rw here (present (omega arith) ((eq_ℤ_iff x fd).0 here) (simp (here, suc-sub_one)))
  | inr elsewhere ↦
      rw (elsewhere, find_client-suc fd x xs 0 n)
        (Search-suc elsewhere (find_client-Search fd xs n (omega arith)))
]

-- When remove_client returns, on a table that counts no more clients than its array has slots, the
-- clients are the old ones without the first that is `fd`; the others keep their order, and if
-- there is no such client nothing changes.
pub clients-remove_client :
    (env : Env) (d : LircData) (fd : ℤ) (t : Trace)
    → d.clin ≤ length d.clis
    → clients (remove_client env d fd t).0 ≡ erase_first fd (clients d)
unfolding remove_client
clients-remove_client env d fd t h =
    from_search (find_client fd d.clis 0 d.clin) (find_client-Search fd d.clis d.clin h)
  where
    from_search :
        (o : Option ℕ)
        → Search fd d.clis d.clin o
        → clients (remove_found env d t o).0 ≡ erase_first fd (clients d)
    from_search none (absent e) = sym e
    from_search (some i) (present lt at e) =
        let whole : i + (d.clin - 1 - i) ≡ d.clin - 1 = omega arith in
        (rw whole at (shift_down-remove_at d.clis i (d.clin - 1 - i) (omega arith))) ∙ sym e

-- A client that is found is hung up on.
pub remove_client-hang_up :
    (env : Env) (d : LircData) (fd : ℤ) (t : Trace)
    → d.clin ≤ length d.clis
    → erase_first fd (clients d) ≢ clients d
    → (remove_client env d fd t).1 ≡ hang_up env fd t
unfolding remove_client
remove_client-hang_up env d fd t h there =
    from_search (find_client fd d.clis 0 d.clin) (find_client-Search fd d.clis d.clin h)
  where
    from_search :
        (o : Option ℕ) → Search fd d.clis d.clin o → (remove_found env d t o).1 ≡ hang_up env fd t
    from_search none (absent e) = absurd (there e)
    from_search (some i) (present lt at e) = ap (λ g. hang_up env g t) at

-- Two states that differ in the table of clients at most.
abbrev pub SameBesideTable : LircData → LircData → Type 0
SameBesideTable d d' = d' ≡ record d { clis = d'.clis; clin = d'.clin }

pub remove_client-SameBesideTable :
    (env : Env) (d : LircData) (fd : ℤ) (t : Trace) → SameBesideTable d (remove_client env d fd t).0
unfolding remove_client
remove_client-SameBesideTable env d fd t = by_result (find_client fd d.clis 0 d.clin)
  where
    by_result : (o : Option ℕ) → SameBesideTable d (remove_found env d t o).0
    by_result none = refl
    by_result (some i) = refl

pub SameBesideTable-trans :
    (a b c : LircData) → SameBesideTable a b → SameBesideTable b c → SameBesideTable a c
SameBesideTable-trans a b c p q = q ∙ ap with_table p
  where
    with_table : LircData → LircData
    with_table x = record x { clis = c.clis; clin = c.clin }
