-- ===== src/Keys/Lookup.antt =====
-- codeToIndex is a partial inverse of the table of keys.
use bdremote_ng.Prelude.{
  ℕ, zero, suc, ◌+◌, ◌<◌, ◌≤◌, ◌≡◌, ◌≢◌, refl, Bool, true, ◌&&◌, some, List, [], ◌∷◌, ℤ, pos, arith,
  ◌==◌, get_elem?, length, take, eq_ℤ, ltb, Bool-cases, inl, inr, ◌⊎◌, ap, ◌∙◌, take_of_le,
  eq_ℤ_iff,
}
use bdremote_ng.Keys.{KeyInfo, keys, num_keys, undef, code_to_index, code_to_index_from}

abbrev all_keys : (KeyInfo → Bool) → List KeyInfo → Bool
all_keys p [] = true
all_keys p (k ∷ ks) = p k && all_keys p ks

all_keys_sound :
    (p : KeyInfo → Bool) (ks : List KeyInfo) (i : ℕ) {k : KeyInfo}
    → all_keys p ks ≡ true
    → get_elem? ks i ≡ some k
    → p k ≡ true
all_keys_sound p [] i h e = cc
all_keys_sound p (x ∷ ks) zero h e = ground arith
all_keys_sound p (x ∷ ks) (suc i) h e = all_keys_sound p ks i (ground arith) e

-- What every entry of the table satisfies.
abbrev entry_fits : KeyInfo → Bool
entry_fits k = ltb (length k.name_orig) 17 && ltb (length k.name_lirc) 17 && ltb k.code 0xff

keys-fit : all_keys entry_fits keys ≡ true
unfolding keys
keys-fit = refl

pub record Fits (k : KeyInfo) : Type 0 where
  pub orig_short : length k.name_orig ≤ 16
  pub lirc_short : length k.name_lirc ≤ 16
  pub code_small : k.code < 0xff

pub key-Fits : (i : ℕ) {k : KeyInfo} → get_elem? keys i ≡ some k → Fits k
key-Fits i {k} e = ground (arith, all_keys_sound entry_fits keys i keys-fit e)

pub length-keys : length keys ≡ num_keys
unfolding keys
length-keys = refl

pub get_elem?_lt {ℓ} :
    {A : Type ℓ} (xs : List A) (i : ℕ) {x : A} → get_elem? xs i ≡ some x → i < length xs
get_elem?_lt [] i e = cc
get_elem?_lt (y ∷ xs) zero e = omega arith
get_elem?_lt (y ∷ xs) (suc i) e = omega (arith, get_elem?_lt xs i e)

-- Each key is found again from its code.
found_again : ℕ → List KeyInfo → Bool
found_again i [] = true
found_again i (k ∷ ks) = eq_ℤ (code_to_index k.code) (pos i) && found_again (i + 1) ks

found_again-keys : found_again 0 keys ≡ true
unfolding found_again keys code_to_index
found_again-keys = refl

found_again_sound :
    (i j : ℕ) (ks : List KeyInfo) {k : KeyInfo}
    → found_again i ks ≡ true
    → get_elem? ks j ≡ some k
    → code_to_index k.code ≡ pos (i + j)
unfolding found_again
found_again_sound i j [] h e = cc
found_again_sound i zero (x ∷ ks) h e = ground (arith, eq_ℤ_iff (code_to_index x.code) (pos i))
found_again_sound i (suc j) (x ∷ ks) h e =
    found_again_sound (i + 1) j ks (ground arith) e ∙ ap pos (omega arith)

-- The index that codeToIndex finds for the code of an entry is the index of that entry: no two of
-- the entries have one code, and the loop reaches them all.
pub code_to_index-code :
    (i : ℕ) {k : KeyInfo} → get_elem? keys i ≡ some k → code_to_index k.code ≡ pos i
code_to_index-code i e = found_again_sound 0 i keys found_again-keys e ∙ ap pos (omega arith)

-- What codeToIndex returns: the index of an entry with that code, or undef.
pub data Found (code : ℕ) (r : ℤ) : Type 0 where
  unknown :
      r ≡ undef → ((i : ℕ) (k : KeyInfo) → get_elem? keys i ≡ some k → k.code ≢ code) → Found code r
  known :
      (i : ℕ) (k : KeyInfo)
      → r ≡ pos i
      → i < num_keys
      → get_elem? keys i ≡ some k
      → k.code ≡ code
      → Found code r

abbrev Absent : ℕ → List KeyInfo → Type 0
Absent code ks = (j : ℕ) (k : KeyInfo) → get_elem? ks j ≡ some k → k.code ≢ code

Absent-cons :
    (code : ℕ) (x : KeyInfo) (ks : List KeyInfo)
    → x.code ≢ code
    → Absent code ks
    → Absent code (x ∷ ks)
Absent-cons code x ks ne all zero k e = ground arith
Absent-cons code x ks ne all (suc j) k e = all j k e

-- The result of the loop over a part of the table that begins at index `i`.
from_shape :
    (code i : ℕ) (ks : List KeyInfo)
    → ((code_to_index_from code i ks ≡ undef) × Absent code ks)
      ⊎ ((j : ℕ) × (k : KeyInfo) × (code_to_index_from code i ks ≡ pos (i + j))
          × (get_elem? ks j ≡ some k)
          × (k.code ≡ code))
unfolding code_to_index_from
from_shape code i [] = inl (refl, λ j k e. cc)
from_shape code i (x ∷ ks) = elim (Bool-cases (code == x.code)) [
  | inl same ↦ inr (0, x, rw same (ap pos (omega arith)), refl, ground arith)
  | inr other ↦ elim (from_shape code (i + 1) ks) [
    | inl (e, all) ↦ inl (rw other e, Absent-cons code x ks (ground arith) all)
    | inr (j, k, e, at, c) ↦ inr (suc j, k, rw other (e ∙ ap pos (omega arith)), at, c)
  ]
]

-- codeToIndex returns the index of an entry of the table with the given code, inside the table, or
-- ps3remote_undef, and then no entry has that code.
pub code_to_index-Found : (code : ℕ) → Found code (code_to_index code)
unfolding code_to_index
code_to_index-Found code =
    let whole : take num_keys keys ≡ keys = take_of_le num_keys keys (omega (arith, length-keys)) in
    elim (from_shape code 0 (take num_keys keys)) [
      | inl (e, all) ↦ unknown e (λ i k at. all i k (rw whole at))
      | inr (j, k, e, at, c) ↦
          known j k (e ∙ ap pos (omega arith))
            (omega (arith, get_elem?_lt keys j (rw whole at at), length-keys)) (rw whole at at) c
    ]
