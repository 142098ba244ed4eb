-- ===== src/Text/Words.antt =====
-- Reading back what `sprintf` has written: words between blanks, and numbers by their digits.
use bdremote_ng.Prelude.{
  ℕ, zero, suc, ◌+◌, ◌-◌, ◌*◌, ◌/◌, ◌%◌, ◌<◌, ◌≤◌, ◌≡◌, ◌≢◌, refl, ap, ◌∙◌, arith, Bool, true,
  false, ◌&&◌, [], ◌∷◌, ◌++◌, replicate, length, leb, ◌==◌, if◌then◌else◌, All, All-append,
  Bool-cases, inl, inr,
}
use bdremote_ng.Text.{CString, digit, digits, padded}

-- a digit of a number that is written with 0 to 9 and A to F
abbrev digit_value : ℕ → ℕ
digit_value c = if leb c b'9' then c - b'0' else c - b'A' + 10

-- the number that the digits spell behind `n`
abbrev pub value : (base : ℕ) → ℕ → CString → ℕ
value base n [] = n
value base n (c ∷ s) = value base (n * base + digit_value c) s

-- the bytes before the first blank, and those behind it
unfoldable pub first_word : CString → CString × CString
first_word [] = ([], [])
first_word (c ∷ s) =
    let (word, rest) = first_word s in if c == 32 then ([], s) else (c ∷ word, rest)

abbrev pub HasNoBlank : CString → Type 0
HasNoBlank = All (λ (c : ℕ). c ≢ 32)

pub first_word-append :
    (word rest : CString) → HasNoBlank word → first_word (word ++ (32 ∷ rest)) ≡ (word, rest)
unfolding first_word
first_word-append [] rest h = refl
first_word-append (c ∷ word) rest h =
    let other : (c == 32) ≡ false = ground (arith, h.0) in
    simp (other, first_word-append word rest h.1)

digit_value-digit : (d : ℕ) → d < 16 → digit_value (digit d) ≡ d
unfolding digit
digit_value-digit d h = ground arith

digit-HasNoBlank : (d : ℕ) → digit d ≢ 32
unfolding digit
digit-HasNoBlank d = ground arith

digits-HasNoBlank :
    (base rounds n : ℕ) (out : CString) → HasNoBlank out → HasNoBlank (digits base rounds n out)
unfolding digits
digits-HasNoBlank base zero n out h = h
digits-HasNoBlank base (suc rounds) n out h = elim (Bool-cases (n == 0)) [
  | inl done ↦ simp done h
  | inr more ↦ simp more (
      digits-HasNoBlank base rounds (n / base) (digit (n % base) ∷ out)
        (digit-HasNoBlank (n % base), h))
]

zeros-HasNoBlank : (k : ℕ) → HasNoBlank (replicate k b'0')
zeros-HasNoBlank zero = tt
zeros-HasNoBlank (suc k) = (omega arith, zeros-HasNoBlank k)

pub padded-HasNoBlank : (base width n : ℕ) → HasNoBlank (padded base width n)
unfolding padded
padded-HasNoBlank base width n =
    All-append (λ (c : ℕ). c ≢ 32) (replicate (width - length (digits base n n [])) b'0')
      (digits base n n []) (zeros-HasNoBlank (width - length (digits base n n [])))
      (digits-HasNoBlank base n n [] tt)

value-zeros : (base k : ℕ) (s : CString) → value base 0 (replicate k b'0' ++ s) ≡ value base 0 s
value-zeros base zero s = refl
value-zeros base (suc k) s =
    ap (λ n. value base n (replicate k b'0' ++ s)) (omega arith) ∙ value-zeros base k s

-- A base that the digits can be read back in.
record IsBase (base : ℕ) : Type 0 where
  divides : (n : ℕ) → n / base * base + n % base ≡ n
  is_digit : (n : ℕ) → n % base < 16
  shrinks : (n k : ℕ) → 0 < n → n ≤ suc k → n / base ≤ k

sixteen-IsBase : IsBase 16
sixteen-IsBase = record {
  divides = λ n. omega arith;
  is_digit = λ n. omega arith;
  shrinks = λ n k p h. omega arith;
}

value-digits :
    {base : ℕ}
    → IsBase base
    → (rounds n : ℕ) (out : CString) → n ≤ rounds
    → value base 0 (digits base rounds n out) ≡ value base n out
unfolding digits
value-digits {base} b zero n out h = ap (λ k. value base k out) (omega arith)
value-digits {base} b (suc rounds) n out h = elim (Bool-cases (n == 0)) [
  | inl done ↦ simp done (ap (λ k. value base k out) (ground arith))
  | inr more ↦
      let d = n % base in
      simp more (
        value-digits b rounds (n / base) (digit d ∷ out) (b.shrinks n rounds (ground arith) h)
        ∙ ap (λ k. value base k out)
            (ap (λ v. n / base * base + v) (digit_value-digit d (b.is_digit n)) ∙ b.divides n))
]

value-padded : {base : ℕ} → IsBase base → (width n : ℕ) → value base 0 (padded base width n) ≡ n
unfolding padded
value-padded {base} b width n =
    value-zeros base (width - length (digits base n n [])) (digits base n n [])
    ∙ value-digits b n n [] (omega arith)

-- Two decimal digits, read in hexadecimal.
abbrev reads_two_digits : ℕ → Bool
reads_two_digits n = value 16 0 (padded 10 2 n) == n / 10 * 16 + n % 10

below : (p : ℕ → Bool) → ℕ → Bool
below p zero = true
below p (suc n) = p n && below p n

below_sound : (p : ℕ → Bool) (bound n : ℕ) → below p bound ≡ true → n < bound → p n ≡ true
unfolding below
below_sound p zero n h lt = absurd (omega arith)
below_sound p (suc bound) n h lt = elim (Bool-cases (n == bound)) [
  | inl last ↦ let same : n ≡ bound = ground arith in rw same (ground arith)
  | inr earlier ↦ below_sound p bound n (ground arith) (ground arith)
]

two_digits_below : below reads_two_digits 100 ≡ true
unfolding below padded digits digit
two_digits_below = refl

pub value-two_digits : (n : ℕ) → n < 100 → value 16 0 (padded 10 2 n) ≡ n / 10 * 16 + n % 10
value-two_digits n h = let e = below_sound reads_two_digits 100 n two_digits_below h in ground arith

pub value-hex : (width n : ℕ) → value 16 0 (padded 16 width n) ≡ n
value-hex width n = value-padded sixteen-IsBase width n
