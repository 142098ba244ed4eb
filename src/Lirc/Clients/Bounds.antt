-- ===== src/Lirc/Clients/Bounds.antt =====
-- The table of clients stays within its array, whatever connects and disconnects.
use native.Mathlib.Numerals.{add-one}
use bdremote_ng.Prelude.{
  ℕ, zero, suc, ◌+◌, ◌-◌, ◌<◌, ◌≤◌, ◌≡◌, refl, ap, ◌∙◌, arith, ℤ, pos, true, false, leb, ltb_ℤ,
  Option, none, some, List, [], ◌∷◌, ◌++◌, set, take, drop, length, replicate, Bool-cases, inl, inr,
  if◌then◌else◌, length-set, length-append, length-drop,
}
use bdremote_ng.Sys.{Env, Trace, accept}
use bdremote_ng.Config.{Configuration}
use bdremote_ng.Lirc.{LircData, max_clients, init_lirc_data}
use bdremote_ng.Lirc.Clients.{
  clients, fd_setsize, is_rejected, add_client, find_client, shift_down, remove_found,
  remove_client,
}

pub record IsTable (d : LircData) : Type 0 where
  pub slots : length d.clis ≡ max_clients
  pub used : d.clin ≤ max_clients

pub init-IsTable :
    (before : List ℤ) (c : Configuration)
    → length before ≡ max_clients
    → IsTable (init_lirc_data before c)
unfolding init_lirc_data
init-IsTable before c h = record {
  slots =
      omega
        (arith, length-append {A = ℤ} (replicate 4 (pos 0)) (drop 4 before), length-drop 4 before);
  used = omega arith;
}

take-set_end :
    (xs : List ℤ) (n : ℕ) (v : ℤ)
    → n < length xs
    → take (n + 1) (set xs n v) ≡ take n xs ++ (v ∷ [])
take-set_end [] n v h = elim h [ ]
take-set_end (x ∷ xs) zero v h = refl
take-set_end (x ∷ xs) (suc n) v h =
    rw add-one (ap (◌∷◌ x) (rw add-one at (take-set_end xs n v (omega arith))))

length-shift_down : (xs : List ℤ) (i rounds : ℕ) → length (shift_down xs i rounds) ≡ length xs
unfolding shift_down
length-shift_down xs i zero = refl
length-shift_down xs i (suc rounds) =
    omega (arith, length-shift_down (set xs i _) (i + 1) rounds, length-set xs i)

pub clients-add_client :
    (env : Env) (d : LircData) (t : Trace)
    → IsTable d
    → let fd = env.answer t (accept d.sockinet) in
      IsTable (add_client env d t).0
      × (clients (add_client env d t).0
          ≡ (if is_rejected fd d.clin then clients d else clients d ++ (fd ∷ [])))
unfolding add_client
clients-add_client env d t v =
    let fd = env.answer t (accept d.sockinet) in
    elim (Bool-cases (is_rejected fd d.clin)) [
      | inl rejected ↦ simp rejected (v, refl)
      | inr taken ↦
          let room : d.clin < max_clients = ground arith in
          simp taken (
            record {
              slots = omega (arith, v.slots, length-set d.clis d.clin fd);
              used = omega arith;
            },
            take-set_end d.clis d.clin fd (omega (arith, v.slots)),
          )
    ]

-- How the clients are after add_client, when accept() gave `fd`: one more, the last, which fd_set has
-- room for, or the same as before.
pub data Admitted (d : LircData) (fd : ℤ) (after : List ℤ) : Type 0 where
  admitted :
      ltb_ℤ fd (pos fd_setsize) ≡ true
      → d.clin < max_clients
      → after ≡ clients d ++ (fd ∷ [])
      → Admitted d fd after
  too_large : ltb_ℤ fd (pos fd_setsize) ≡ false → after ≡ clients d → Admitted d fd after
  table_full : d.clin ≡ max_clients → after ≡ clients d → Admitted d fd after

-- add_client keeps a well-formed table within its array. Either what accept() gives is below
-- FD_SETSIZE and the table had room, and then it is one more client, the last, also where it is the
-- -1 of a failure; or it is not below FD_SETSIZE, or the table is full, and then the clients stay as
-- they are.
pub add_client_lem :
    (env : Env) (d : LircData) (t : Trace)
    → IsTable d
    → let fd = env.answer t (accept d.sockinet) in
      IsTable (add_client env d t).0 × Admitted d fd (clients (add_client env d t).0)
add_client_lem env d t v =
    let fd = env.answer t (accept d.sockinet) in
    let (table, e) = clients-add_client env d t v in
    elim (Bool-cases (ltb_ℤ fd (pos fd_setsize))) [
      | inr large ↦ (table, too_large large (e ∙ simp large))
      | inl small ↦ elim (Bool-cases (leb max_clients d.clin)) [
        | inl full ↦ (table, table_full (ground (arith, v.used)) (e ∙ simp (small, full)))
        | inr taken ↦ (table, admitted small (ground arith) (e ∙ simp (small, taken)))
      ]
    ]

remove_found-IsTable :
    (env : Env) (d : LircData) (t : Trace) (o : Option ℕ)
    → IsTable d
    → IsTable (remove_found env d t o).0
unfolding remove_found
remove_found-IsTable env d t none v = v
remove_found-IsTable env d t (some i) v = record {
  slots = omega (arith, v.slots, length-shift_down d.clis i (d.clin - 1 - i));
  used = omega (arith, v.used);
}

pub remove_client-IsTable :
    (env : Env) (d : LircData) (fd : ℤ) (t : Trace)
    → IsTable d
    → IsTable (remove_client env d fd t).0
unfolding remove_client
remove_client-IsTable env d fd t v = remove_found-IsTable env d t (find_client fd d.clis 0 d.clin) v
