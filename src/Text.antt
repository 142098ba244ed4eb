-- ===== src/Text.antt =====
-- C strings as lists of bytes without the final NUL, and what the program uses of <stdio.h>: the
-- conversions %X and %d of `sprintf`, for numbers that are not negative.
pub mod Width
pub mod Words
use Prim.Native.Char.{code}
use bdremote_ng.Prelude.{
  ℕ, zero, suc, ◌+◌, ◌-◌, ◌/◌, ◌%◌, String, List, [], ◌∷◌, ◌++◌, ltb, ◌==◌, if◌then◌else◌, length,
  replicate, ℤ, pos, negsuc,
}

abbrev pub CString : Type 0
CString = List ℕ

-- The bytes of a literal; all literals of the program are ASCII.
abbrev pub codes : String → CString
codes String.[] = []
codes (String.◌∷◌ c s) = code c ∷ codes s

-- a digit of %X
unfoldable pub digit : ℕ → ℕ
digit d = if ltb d 10 then b'0' + d else b'A' + (d - 10)

-- The digits of `n` before those of `out`; `n` rounds are enough, since each divides by the base.
unfoldable pub digits : ℕ → ℕ → ℕ → CString → CString
unfolding digit
digits base zero n out = out
digits base (suc rounds) n out =
    let rest = digits base rounds (n / base) (digit (n % base) ∷ out) in
    if n == 0 then out else rest

-- `%0<width>X` and `%0<width>d`
unfoldable pub padded : ℕ → ℕ → ℕ → CString
unfolding digits
padded base width n = let ds = digits base n n [] in replicate (width - length ds) b'0' ++ ds

-- `%d`
unfoldable pub decimal : ℤ → CString
decimal (pos n) = padded 10 1 n
decimal (negsuc n) = b'-' ∷ padded 10 1 (suc n)
