-- ===== src/Lirc/Callback/Unchanged.antt =====
-- src/lirc_callback.c: the clients and the configuration during the callbacks.
use bdremote_ng.Prelude.{
  ◌≡◌, refl, ◌∙◌, ℤ, pos, eq_ℤ, Option, none, some, List, [], ◌∷◌, length, ◌==◌, Bool-cases, inl,
  inr, Outcome, assert, Ensures, Ensures-bind, Ensures-after,
}
use bdremote_ng.Sys.{Env, Trace}
use bdremote_ng.Queue.{Queue, QueueData, queue_data_init, add_section}
use bdremote_ng.Capture.{Callback, remote_battery_charge, data_ind}
use bdremote_ng.Lirc.{LircData}
use bdremote_ng.Lirc.Callback.{
  on_battery_charge, on_data_ind, notify, notify_all, go_on, queued, with_trace,
}

-- `d'` has the clients, the configuration and the magic of `d`.
abbrev pub SameClients : LircData → LircData → Type 0
SameClients d d' =
    (d'.magic0 ≡ d.magic0) × (d'.config ≡ d.config) × (d'.clis ≡ d.clis) × (d'.clin ≡ d.clin)

SameClients-trans : (a b c : LircData) → SameClients a b → SameClients b c → SameClients a c
SameClients-trans a b c (m, f, s, n) (m1, f1, s1, n1) = (m1 ∙ m, f1 ∙ f, s1 ∙ s, n1 ∙ n)

on_battery_charge-SameClients :
    (env : Env) (v : ℤ) (d : LircData) (t : Trace) → SameClients d (on_battery_charge env v d t).0
unfolding on_battery_charge
on_battery_charge-SameClients env v d t = elim (Bool-cases d.charge_percent_set) [
  | inr fresh ↦ simp fresh (refl, refl, refl, refl)
  | inl known ↦ elim (Bool-cases (eq_ℤ d.charge_percent v)) [
    | inl same ↦ simp (known, same) (refl, refl, refl, refl)
    | inr other ↦ simp (known, other) (refl, refl, refl, refl)
  ]
]

-- the state that a callback leaves, if it does not wait
abbrev IfSome : LircData → Option (LircData × Trace) → Type 0
IfSome d none = Unit
IfSome d (some p) = SameClients d p.0

notify-SameClients :
    (env : Env) (c : Callback) (d : LircData) (t : Trace) → Ensures (IfSome d) (notify env c d t)
unfolding notify on_data_ind with_trace queued
notify-SameClients env (remote_battery_charge v) d t = on_battery_charge-SameClients env (pos v) d t
notify-SameClients env (data_ind bytes) d t =
    Ensures-bind (λ o. IfSome d (with_trace t o)) (IfSome d) (on_data_ind bytes d) _
      (Ensures-after (λ o. IfSome d (with_trace t o)) (assert (d.magic0 == 0x15)) _
        (λ _.
          Ensures-after (λ o. IfSome d (with_trace t o))
            (queue_data_init (some bytes) (pos (length bytes))) _
            (λ qd. by_room (add_section d.qu qd))))
      (λ o h. h)
  where
    by_room : (o : Option (Queue QueueData)) → IfSome d (with_trace t (queued d o))
    by_room none = tt
    by_room (some q) = (refl, refl, refl, refl)

-- What `notify_all` does next.
go_on-SameClients :
    (d0 d : LircData) (cs : List Callback) (t : Trace)
    (later : LircData → Trace → Outcome (List Callback × LircData × Trace))
    (o : Option (LircData × Trace))
    → SameClients d0 d
    → ((d1 : LircData) (t1 : Trace)
        → SameClients d0 d1
        → Ensures (λ r. SameClients d0 r.1) (later d1 t1))
    → IfSome d o
    → Ensures (λ r. SameClients d0 r.1) (go_on cs d t later o)
unfolding go_on
go_on-SameClients d0 d cs t later none s k h = s
go_on-SameClients d0 d cs t later (some (d1, t1)) s k h = k d1 t1 (SameClients-trans d0 d d1 s h)

-- Whatever callbacks come, the clients, the configuration and the magic stay.
pub notify_all-SameClients :
    (env : Env) (d0 : LircData) (cs : List Callback) (d : LircData) (t : Trace)
    → SameClients d0 d
    → Ensures (λ r. SameClients d0 r.1) (notify_all env cs d t)
unfolding notify_all
notify_all-SameClients env d0 [] d t s = s
notify_all-SameClients env d0 (c ∷ cs) d t s =
    Ensures-bind (IfSome d) (λ r. SameClients d0 r.1) (notify env c d t) _
      (notify-SameClients env c d t)
      (λ o h.
        go_on-SameClients d0 d (c ∷ cs) t (notify_all env cs) o s
          (λ d1 t1 s1. notify_all-SameClients env d0 cs d1 t1 s1) h)
