-- ===== src/Text/Width.antt =====
-- How wide a converted number is.
use native.Mathlib.Nat.{pow-suc}
use bdremote_ng.Prelude.{
  ℕ, zero, suc, ◌+◌, ◌-◌, ◌/◌, ◌%◌, ◌^◌, ◌<◌, ◌≤◌, ◌≡◌, [], ◌∷◌, arith, length, length-append,
  length-replicate, replicate,
}
use bdremote_ng.Text.{CString, digit, digits, padded}

-- A number of at most `k` decimal digits.
length-digits_decimal :
    (k rounds n : ℕ) (out : CString) → n < 10 ^ k → length (digits 10 rounds n out) ≤ k + length out
unfolding digits
length-digits_decimal k zero n out h = omega arith
length-digits_decimal zero (suc rounds) n out h = ground arith
length-digits_decimal (suc k) (suc rounds) n out h =
    ground (arith, pow-suc 10 k, length-digits_decimal k rounds (n / 10) (digit (n % 10) ∷ out))

-- `%02d` of an int that is not negative takes at most ten bytes.
pub padded_decimal-le : (n : ℕ) → n < 10 ^ 10 → length (padded 10 2 n) ≤ 10
unfolding padded
padded_decimal-le n h = omega (
  arith,
  length-digits_decimal 10 n n [] h,
  length-append (replicate (2 - length (digits 10 n n [])) b'0') (digits 10 n n []),
  length-replicate {A = ℕ} (2 - length (digits 10 n n [])) b'0',
)

length-digits_hex :
    (k rounds n : ℕ) (out : CString) → n < 16 ^ k → length (digits 16 rounds n out) ≤ k + length out
unfolding digits
length-digits_hex k zero n out h = omega arith
length-digits_hex zero (suc rounds) n out h = ground arith
length-digits_hex (suc k) (suc rounds) n out h =
    ground (arith, pow-suc 16 k, length-digits_hex k rounds (n / 16) (digit (n % 16) ∷ out))

-- `%04X` of a 16-bit number takes four bytes.
pub padded_hex : (n : ℕ) → n < 16 ^ 4 → length (padded 16 4 n) ≡ 4
unfolding padded
padded_hex n h = omega (
  arith,
  length-digits_hex 4 n n [] h,
  length-append (replicate (4 - length (digits 16 n n [])) b'0') (digits 16 n n []),
  length-replicate {A = ℕ} (4 - length (digits 16 n n [])) b'0',
)
