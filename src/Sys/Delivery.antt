-- ===== src/Sys/Delivery.antt =====
-- What a descriptor has been sent, read off a trace.
use bdremote_ng.Prelude.{ℕ, ℤ, pos, negsuc, List, [], ◌∷◌, ◌++◌, take, eq_ℤ, if◌then◌else◌}
use bdremote_ng.Sys.{Call, write, Trace}

-- the bytes that a call of write() with this result has taken over
abbrev pub accepted : List ℕ → ℤ → List ℕ
accepted buf (pos n) = take n buf
accepted buf (negsuc n) = []

abbrev pub sent_by : ℤ → Call → ℤ → List ℕ
sent_by fd (write g buf) r = if eq_ℤ g fd then accepted buf r else []
sent_by fd _ r = []

-- all bytes written to `fd`, oldest first
abbrev pub delivered : ℤ → Trace → List ℕ
delivered fd [] = []
delivered fd (e ∷ t) = delivered fd t ++ sent_by fd e.call e.result
