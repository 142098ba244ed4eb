-- ===== src/Lirc/Broadcast/Message.antt =====
-- The line that LIRC clients receive, and the array that it is built in.
use bdremote_ng.Prelude.{ℕ, ◌+◌, ◌<◌, ◌≤◌, ◌^◌, ◌≡◌, refl, arith, length, length-append}
use bdremote_ng.Text.{CString, padded}
use bdremote_ng.Text.Width.{padded_decimal-le, padded_hex}
use bdremote_ng.Lirc.Broadcast.{message}

-- The line for a key with a code below 65536 and a repeat count below 10 ^ 10, which an int never
-- reaches, is at most 30 bytes longer than the name, so that a name of up to 69 bytes fits msg[100].
pub length-message-le :
    (code rep : ℕ) (name : CString)
    → code < 16 ^ 4
    → rep < 10 ^ 10
    → length (message code rep name) ≤ length name + 30
unfolding message
length-message-le code rep name hc hr =
    omega (arith, padded_hex code hc, padded_decimal-le rep hr, length-append {0})

padded_zero : length (padded 10 2 0) ≡ 2
unfolding padded
padded_zero = refl

-- With the repeat count 0, which all but repeated keys have, it is exactly 22 bytes longer.
pub length-message :
    (code : ℕ) (name : CString) → code < 16 ^ 4 → length (message code 0 name) ≡ length name + 22
unfolding message
length-message code name hc = omega (arith, padded_hex code hc, padded_zero, length-append {0})
