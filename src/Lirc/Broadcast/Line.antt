-- ===== src/Lirc/Broadcast/Line.antt =====
-- src/lirc_thr.c: how a LIRC client reads the line of broadcastToLirc.
use bdremote_ng.Prelude.{
  ℕ, ◌+◌, ◌*◌, ◌/◌, ◌%◌, ◌<◌, ◌≡◌, ◌↔◌, refl, arith, [], ◌∷◌, ◌++◌, ◌==◌, if◌then◌else◌,
}
use bdremote_ng.Text.{CString, codes, padded}
use bdremote_ng.Text.Words.{
  value, first_word, HasNoBlank, first_word-append, padded-HasNoBlank, value-two_digits, value-hex,
}
use bdremote_ng.Lirc.Broadcast.{message}

-- The protocol of lircd: the code and the repeat count in hexadecimal, the name of the button and, up
-- to the end of the line, that of the remote control.
pub record Line : Type 0 where
  pub code : ℕ
  pub rep : ℕ
  pub button : CString
  pub remote : CString

-- the bytes before the first line feed
unfoldable pub first_line : CString → CString
first_line [] = []
first_line (c ∷ s) = let rest = first_line s in if c == 10 then [] else c ∷ rest

unfoldable pub read_line : CString → Line
read_line s =
    let (code, s1) = first_word s in
    let (rep, s2) = first_word s1 in
    let (button, s3) = first_word s2 in
    record { code = value 16 0 code; rep = value 16 0 rep; button = button; remote = first_line s3 }

-- A client that reads the line by the protocol of lircd gets the code and the name that
-- broadcastToLirc was called with, if the name has no blank, and the name of the remote; of a repeat
-- count below 100 it reads the two decimal digits in hexadecimal, which gives the repeat count
-- itself exactly below 10.
pub read_line-message :
    (code rep : ℕ) (name : CString)
    → HasNoBlank name
    → rep < 100
    → (read_line (message code rep name) ≡ record {
      code = code;
      rep = rep / 10 * 16 + rep % 10;
      button = name;
      remote = codes "SonyBDRemote";
    })
      × ((rep / 10 * 16 + rep % 10 ≡ rep) ↔ (rep < 10))
unfolding read_line message first_line
read_line-message code rep name h small =
    let remote = codes "SonyBDRemote" ++ (10 ∷ []) in
    let third = first_word-append name remote h in
    let second =
      first_word-append (padded 10 2 rep) (name ++ (32 ∷ remote)) (padded-HasNoBlank 10 2 rep) in
    let first =
      first_word-append (padded 16 4 code) (padded 10 2 rep ++ (32 ∷ (name ++ (32 ∷ remote))))
        (padded-HasNoBlank 16 4 code) in
    (
      simp (first, second, third, value-hex 4 code, value-two_digits rep small) refl,
      ((λ same. omega arith), (λ few. omega arith)),
    )
