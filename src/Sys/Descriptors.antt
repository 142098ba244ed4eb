-- ===== src/Sys/Descriptors.antt =====
-- File descriptors, read off a trace: how often the calls opened and closed one.
use bdremote_ng.Prelude.{ℕ, ◌+◌, ℤ, eq_ℤ, Bool, true, false, List, [], ◌∷◌, ◌++◌, ◌≡◌, arith}
use bdremote_ng.Sys.{
  Call, Trace, accept, socket, open_device, close, control_socket, hidp_socket, l2cap_socket,
  open_adapter, close_adapter,
}

abbrev pub one_if : Bool → ℕ
one_if true = 1
one_if false = 0

abbrev opened_by : ℤ → Call → ℤ → ℕ
opened_by fd (accept sk) r = one_if (eq_ℤ r fd)
opened_by fd socket r = one_if (eq_ℤ r fd)
opened_by fd (open_device name) r = one_if (eq_ℤ r fd)
opened_by fd control_socket r = one_if (eq_ℤ r fd)
opened_by fd hidp_socket r = one_if (eq_ℤ r fd)
opened_by fd l2cap_socket r = one_if (eq_ℤ r fd)
opened_by fd (open_adapter dev) r = one_if (eq_ℤ r fd)
opened_by fd _ r = 0

abbrev closed_by : ℤ → Call → ℕ
closed_by fd (close g) = one_if (eq_ℤ g fd)
closed_by fd (close_adapter g) = one_if (eq_ℤ g fd)
closed_by fd _ = 0

-- how often `fd` was opened
abbrev pub opened : ℤ → Trace → ℕ
opened fd [] = 0
opened fd (e ∷ t) = opened_by fd e.call e.result + opened fd t

-- how often `fd` was closed
abbrev pub closed : ℤ → Trace → ℕ
closed fd [] = 0
closed fd (e ∷ t) = closed_by fd e.call + closed fd t

-- how often `fd` stands in a list
abbrev pub holding : ℤ → List ℤ → ℕ
holding fd [] = 0
holding fd (g ∷ gs) = one_if (eq_ℤ g fd) + holding fd gs

pub holding-append :
    (fd : ℤ) (xs ys : List ℤ) → holding fd (xs ++ ys) ≡ holding fd xs + holding fd ys
holding-append fd [] ys = omega arith
holding-append fd (x ∷ xs) ys = omega (arith, holding-append fd xs ys)

-- From the trace `t`, with the descriptors `held` in hand, to the trace `t'` with `held'` in hand:
-- what was opened meanwhile or held before is closed or held in the end, and nothing else is closed.
abbrev pub IsBalanced : ℤ → List ℤ → Trace → List ℤ → Trace → Type 0
IsBalanced fd held t held' t' =
    opened fd t' + closed fd t + holding fd held ≡ opened fd t + closed fd t' + holding fd held'

pub IsBalanced-trans :
    (fd : ℤ) (a b c : List ℤ) (t t1 t2 : Trace)
    → IsBalanced fd a t b t1
    → IsBalanced fd b t1 c t2
    → IsBalanced fd a t c t2
IsBalanced-trans fd a b c t t1 t2 p q = omega (arith, p, q)
