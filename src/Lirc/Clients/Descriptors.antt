-- ===== src/Lirc/Clients/Descriptors.antt =====
-- src/lirc_srv.c: the descriptors in the table of clients.

use bdremote_ng.Prelude.{
  ℕ, zero, suc, ◌+◌, ◌<◌, ◌≤◌, ◌≡◌, refl, ap, sym, arith, ℤ, pos, minus_one, eq_ℤ, eq_ℤ_iff, Option,
  none, some, List, [], ◌∷◌, get_or, take, length, Bool-cases, inl, inr,
}
use bdremote_ng.Sys.{Env, Trace, perform, accept, get_flags}
use bdremote_ng.Sys.Descriptors.{one_if, holding, holding-append, IsBalanced}
use bdremote_ng.Lirc.{LircData}
use bdremote_ng.Lirc.Socket.{nolinger}
use bdremote_ng.Lirc.Clients.{
  clients, is_rejected, hang_up, set_flags, add_client, find_client, remove_found, remove_client,
}
use bdremote_ng.Lirc.Clients.Table.{
  erase_first, Search, absent, present, find_client-Search, clients-remove_client,
}
use bdremote_ng.Lirc.Clients.Bounds.{IsTable, clients-add_client}

pub hang_up-IsBalanced :
    (env : Env) (fd : ℤ) (t : Trace) (n : ℕ) → IsBalanced (pos n) (fd ∷ []) t [] (hang_up env fd t)
hang_up-IsBalanced env fd t n = omega arith

set_flags-IsBalanced :
    (env : Env) (fd : ℤ) (t : Trace) (n : ℕ) → IsBalanced (pos n) [] t [] (set_flags env fd t)
unfolding set_flags
set_flags-IsBalanced env fd t n = elim (Bool-cases (eq_ℤ (env.answer t (get_flags fd)) minus_one)) [
  | inl failed ↦ simp failed (omega arith)
  | inr known ↦ simp known (omega arith)
]

pub nolinger-IsBalanced :
    (env : Env) (fd : ℤ) (t : Trace) (n : ℕ) → IsBalanced (pos n) [] t [] (nolinger env fd t)
unfolding nolinger
nolinger-IsBalanced env fd t n = omega arith

-- Of the clients before and after add_client: what accept gave is with them or closed.
pub add_client-IsBalanced :
    (env : Env) (d : LircData) (t : Trace) (n : ℕ)
    → IsTable d
    → let (d', t') = add_client env d t in IsBalanced (pos n) (clients d) t (clients d') t'
unfolding add_client
add_client-IsBalanced env d t n v =
    let (fd, t1) = perform env (accept d.sockinet) t in
    let kept = (clients-add_client env d t v).1 in
    elim (Bool-cases (is_rejected fd d.clin)) [
      | inl rejected ↦ simp rejected (omega arith)
      | inr taken ↦
          let more = ap (holding (pos n)) (simp taken at kept) in
          simp taken (
            omega (
              arith,
              more,
              holding-append (pos n) (clients d) (fd ∷ []),
              nolinger-IsBalanced env fd t1 n,
              set_flags-IsBalanced env fd (nolinger env fd t1) n,
            ))
    ]

-- An `fd` that stands in the list is the one that an erasure takes out.
holding-erase_first :
    (g fd : ℤ) (xs : List ℤ) (n i : ℕ)
    → n ≤ length xs
    → i < n
    → get_or xs i minus_one ≡ fd
    → one_if (eq_ℤ fd g) + holding g (erase_first fd (take n xs)) ≡ holding g (take n xs)
unfolding erase_first
holding-erase_first g fd xs zero i h lt at = absurd (omega arith)
holding-erase_first g fd [] (suc n) i h lt at = absurd (omega arith)
holding-erase_first g fd (x ∷ xs) (suc n) zero h lt at =
    let here = (eq_ℤ_iff x fd).1 at in
    simp here (ap (λ y. one_if (eq_ℤ y g) + holding g (take n xs)) (sym at))
holding-erase_first g fd (x ∷ xs) (suc n) (suc i) h lt at = elim (Bool-cases (eq_ℤ x fd)) [
  | inl here ↦
      simp here (ap (λ y. one_if (eq_ℤ y g) + holding g (take n xs)) (sym ((eq_ℤ_iff x fd).0 here)))
  | inr elsewhere ↦
      simp elsewhere (omega (arith, holding-erase_first g fd xs n i (omega arith) (omega arith) at))
]

remove_found-closes :
    (env : Env) (d : LircData) (fd : ℤ) (t : Trace) (n : ℕ) (o : Option ℕ)
    → d.clin ≤ length d.clis
    → Search fd d.clis d.clin o
    → IsBalanced (pos n) (clients d) t (erase_first fd (clients d)) (remove_found env d t o).1
unfolding remove_found
remove_found-closes env d fd t n none h (absent e) = rw e refl
remove_found-closes env d fd t n (some i) h (present lt at e) =
    let closes = hang_up-IsBalanced env (get_or d.clis i minus_one) t n in
    omega (
      arith,
      ap (λ g. one_if (eq_ℤ g (pos n))) at,
      holding-erase_first (pos n) fd d.clis d.clin i h lt at,
      closes,
    )

-- Of the clients before and after remove_client: the one that is gone is closed.
pub remove_client-IsBalanced :
    (env : Env) (d : LircData) (fd : ℤ) (t : Trace) (n : ℕ)
    → d.clin ≤ length d.clis
    → let (d', t') = remove_client env d fd t in IsBalanced (pos n) (clients d) t (clients d') t'
unfolding remove_client
remove_client-IsBalanced env d fd t n h =
    let left = ap (holding (pos n)) (clients-remove_client env d fd t h) in
    omega (
      arith,
      left,
      remove_found-closes env d fd t n (find_client fd d.clis 0 d.clin) h
          (find_client-Search fd d.clis d.clin h),
    )
