-- ===== src/Logging/FileName.antt =====
-- src/globaldefs.c: what bdrGetFilename makes of a path.
use native.Mathlib.Nat.{suc-add, zero-add}
use bdremote_ng.Prelude.{
  ℕ, ℕ_discrete, zero, suc, ◌+◌, ◌-◌, ◌<◌, ◌≡◌, ◌≢◌, refl, ap, ◌∙◌, arith, true, false, none, some,
  [], ◌∷◌, ◌++◌, drop, length, length-append, get_or, ltb, ◌==◌, if◌then◌else◌, ok, All,
}
use bdremote_ng.Text.{CString}
use bdremote_ng.Logging.{last_slash, offset_of, bdr_get_filename}

abbrev pub HasNoSlash : CString → Type 0
HasNoSlash = All (λ (c : ℕ). c ≢ b'/')

-- A path with its file name. A directory with a slash at its end keeps just that slash.
pub data FileName : CString → CString → Type 0 where
  plain : {name : CString} → HasNoSlash name → FileName name name
  below :
      {c : ℕ} {name : CString} (directory : CString)
      → HasNoSlash (c ∷ name)
      → FileName (directory ++ (b'/' ∷ c ∷ name)) (c ∷ name)
  bare : (directory : CString) → FileName (directory ++ (b'/' ∷ [])) (b'/' ∷ [])

get_or-HasNoSlash : (s : CString) (i : ℕ) → HasNoSlash s → get_or s i 0 ≢ b'/'
get_or-HasNoSlash [] i h = λ e. cc
get_or-HasNoSlash (c ∷ s) zero h = h.0
get_or-HasNoSlash (c ∷ s) (suc i) h = get_or-HasNoSlash s i h.1

module _ (ys : CString) where
  get_or-append_right : (xs : CString) (i : ℕ) → get_or (xs ++ ys) (length xs + i) 0 ≡ get_or ys i 0
  get_or-append_right [] i = rw zero-add refl
  get_or-append_right (x ∷ xs) i = rw suc-add (get_or-append_right xs i)

  drop-append_right : (xs : CString) (i : ℕ) → drop (length xs + i) (xs ++ ys) ≡ drop i ys
  drop-append_right [] i = rw zero-add refl
  drop-append_right (x ∷ xs) i = rw suc-add (drop-append_right xs i)

last_slash-none : (s : CString) (bound : ℕ) → HasNoSlash s → last_slash s bound ≡ none
unfolding last_slash
last_slash-none s zero h = refl
last_slash-none s (suc i) h =
    let other : (get_or s i 0 == b'/') ≡ false = ground (arith, get_or-HasNoSlash s i h) in
    simp other (last_slash-none s i h)

last_slash-HasNoSlash :
    (directory name : CString) (bound : ℕ)
    → HasNoSlash name
    → length directory < bound
    → last_slash (directory ++ (b'/' ∷ name)) bound ≡ some (length directory)
unfolding last_slash
last_slash-HasNoSlash directory name zero h lt = absurd (omega arith)
last_slash-HasNoSlash directory name (suc i) h lt = elim (ℕ_discrete i (length directory)) [
  | yes here ↦
      let slash : get_or (directory ++ (b'/' ∷ name)) i 0 ≡ b'/' =
        ap (λ k. get_or (directory ++ (b'/' ∷ name)) k 0) (omega arith)
        ∙ get_or-append_right (b'/' ∷ name) directory 0 in
      simp slash (ap some here)
  | no above ↦
      let k = i - (length directory + 1) in
      let at_name : get_or (directory ++ (b'/' ∷ name)) i 0 ≡ get_or name k 0 =
        ap (λ k. get_or (directory ++ (b'/' ∷ name)) k 0) (omega arith)
        ∙ get_or-append_right (b'/' ∷ name) directory (suc k) in
      let other : (get_or (directory ++ (b'/' ∷ name)) i 0 == b'/') ≡ false =
        ground (arith, at_name, get_or-HasNoSlash name k h) in
      simp other (last_slash-HasNoSlash directory name i h (omega arith))
]

-- the name in a path with a slash
with_slash :
    (directory name : CString)
    → HasNoSlash name
    → bdr_get_filename (some (directory ++ (b'/' ∷ name)))
      ≡ ok (
          drop
            (if ltb (length directory + 1) (length directory + suc (length name))
              then length directory + 1
              else length directory)
            (directory ++ (b'/' ∷ name)))
unfolding bdr_get_filename offset_of
with_slash directory name h =
    let s = directory ++ (b'/' ∷ name) in
    let size = length-append {A = ℕ} directory (b'/' ∷ name) in
    rw (last_slash-HasNoSlash directory name (length s + 1) h (omega (arith, size)), size) refl

named_by : {path name : CString} → FileName path name → bdr_get_filename (some path) ≡ ok name
named_by (plain {name} h) =
    unfold bdr_get_filename in
    unfold offset_of in rw (last_slash-none name (length name + 1) h) refl
named_by (below {c} {name} directory h) =
    let inside : ltb (length directory + 1) (length directory + suc (suc (length name))) ≡ true =
      ground arith in
    with_slash directory (c ∷ name) h
    ∙ simp inside (ap ok (drop-append_right (b'/' ∷ c ∷ name) directory 1))
named_by (bare directory) =
    let last : ltb (length directory + 1) (length directory + suc 0) ≡ false = ground arith in
    let whole = drop-append_right (b'/' ∷ []) directory 0 in
    with_slash directory [] tt
    ∙ simp last (ap ok (ap (λ k. drop k (directory ++ (b'/' ∷ []))) (omega arith) ∙ whole))

-- A path that is longer by one byte.
longer :
    (c : ℕ) {path name : CString}
    → FileName path name
    → (name' : CString) × FileName (c ∷ path) name'
longer c (below {c = c'} {name = name} directory h) = (c' ∷ name, below (c ∷ directory) h)
longer c (bare directory) = (b'/' ∷ [], bare (c ∷ directory))
longer c (plain {name = name} h) = elim (ℕ_discrete c b'/') [
  | yes slash ↦ rw slash (after_slash name h)
  | no other ↦ (c ∷ name, plain (other, h))
]
  where
    after_slash : (s : CString) → HasNoSlash s → (name' : CString) × FileName (b'/' ∷ s) name'
    after_slash [] k = (b'/' ∷ [], bare [])
    after_slash (d ∷ s) k = (d ∷ s, below [] k)

-- Each path has a file name.
name_of : (path : CString) → (name : CString) × FileName path name
name_of [] = ([], plain tt)
name_of (c ∷ path) = longer c (name_of path).1

-- For every path, bdrGetFilename gives what follows the last slash; a path without a slash it gives
-- whole, and of one that ends with a slash it gives this slash.
pub bdr_get_filename_lem :
    (path : CString)
    → (name : CString) × FileName path name × (bdr_get_filename (some path) ≡ ok name)
bdr_get_filename_lem path = let (name, p) = name_of path in (name, p, named_by p)
