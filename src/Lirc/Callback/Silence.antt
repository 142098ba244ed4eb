-- ===== src/Lirc/Callback/Silence.antt =====
-- src/lirc_callback.c: what the clients are sent during the callbacks.
use bdremote_ng.Prelude.{
  ◌≡◌, refl, ◌∙◌, ℤ, pos, eq_ℤ, Option, none, some, List, [], ◌∷◌, Bool-cases, inl, inr, Outcome,
  Ensures, Ensures-bind, Ensures-after, append-nil,
}
use bdremote_ng.Text.{CString}
use bdremote_ng.Sys.{Env, Trace, access}
use bdremote_ng.Sys.Delivery.{delivered}
use bdremote_ng.Config.{Configuration}
use bdremote_ng.Capture.{Callback, remote_battery_charge, data_ind}
use bdremote_ng.Lirc.{LircData}
use bdremote_ng.Lirc.Callback.{
  on_battery_charge, on_data_ind, notify, notify_all, go_on, with_trace, call_battery_charge_script,
  call_script,
}

module _ (env : Env) (g : ℤ) where
  call_script-delivered :
      (script : Option CString) (prev now : ℤ) (t : Trace)
      → delivered g (call_script env script prev now t) ≡ delivered g t
  unfolding call_script
  call_script-delivered none prev now t = refl
  call_script-delivered (some script) prev now t =
      elim (Bool-cases (eq_ℤ (env.answer t (access script)) (pos 0))) [
        | inl there ↦ simp (there, append-nil)
        | inr missing ↦ simp (missing, append-nil)
      ]

  call_battery_charge_script-delivered :
      (c : Configuration) (prev now : ℤ) (t : Trace)
      → delivered g (call_battery_charge_script env c prev now t) ≡ delivered g t
  unfolding call_battery_charge_script
  call_battery_charge_script-delivered c prev now t = elim (Bool-cases c.battery_script_set) [
    | inl set ↦ simp set (call_script-delivered c.battery_script prev now t)
    | inr unset ↦ simp unset
  ]

  on_battery_charge-delivered :
      (v : ℤ) (d : LircData) (t : Trace)
      → delivered g (on_battery_charge env v d t).1 ≡ delivered g t
  unfolding on_battery_charge
  on_battery_charge-delivered v d t = elim (Bool-cases d.charge_percent_set) [
    | inr fresh ↦ simp fresh (call_battery_charge_script-delivered d.config v v t)
    | inl known ↦ elim (Bool-cases (eq_ℤ d.charge_percent v)) [
      | inl same ↦ simp (known, same)
      | inr other ↦
          simp (known, other) (call_battery_charge_script-delivered d.config d.charge_percent v t)
    ]
  ]

  -- the trace that a callback leaves, if it does not wait
  abbrev IsSilent : Trace → Option (LircData × Trace) → Type 0
  IsSilent t none = Unit
  IsSilent t (some p) = delivered g p.1 ≡ delivered g t

  notify-IsSilent :
      (c : Callback) (d : LircData) (t : Trace) → Ensures (IsSilent t) (notify env c d t)
  unfolding notify with_trace
  notify-IsSilent (remote_battery_charge v) d t = on_battery_charge-delivered (pos v) d t
  notify-IsSilent (data_ind bytes) d t =
      Ensures-after (IsSilent t) (on_data_ind bytes d) _ (λ o. by_room o)
    where
      by_room : (o : Option LircData) → IsSilent t (with_trace t o)
      by_room none = tt
      by_room (some d1) = refl

  go_on-delivered :
      (t0 : Trace) (d : LircData) (cs : List Callback) (t : Trace)
      (later : LircData → Trace → Outcome (List Callback × LircData × Trace))
      (o : Option (LircData × Trace))
      → delivered g t ≡ delivered g t0
      → ((d1 : LircData) (t1 : Trace)
          → delivered g t1 ≡ delivered g t0
          → Ensures (λ r. delivered g r.2 ≡ delivered g t0) (later d1 t1))
      → IsSilent t o
      → Ensures (λ r. delivered g r.2 ≡ delivered g t0) (go_on cs d t later o)
  unfolding go_on
  go_on-delivered t0 d cs t later none e k h = e
  go_on-delivered t0 d cs t later (some (d1, t1)) e k h = k d1 t1 (h ∙ e)

  -- Whatever callbacks come, nothing is sent.
  pub notify_all-delivered :
      (t0 : Trace) (cs : List Callback) (d : LircData) (t : Trace)
      → delivered g t ≡ delivered g t0
      → Ensures (λ r. delivered g r.2 ≡ delivered g t0) (notify_all env cs d t)
  unfolding notify_all
  notify_all-delivered t0 [] d t e = e
  notify_all-delivered t0 (c ∷ cs) d t e =
      Ensures-bind (IsSilent t) (λ r. delivered g r.2 ≡ delivered g t0) (notify env c d t) _
        (notify-IsSilent c d t)
        (λ o h.
          go_on-delivered t0 d (c ∷ cs) t (notify_all env cs) o e
            (λ d1 t1 e1. notify_all-delivered t0 cs d1 t1 e1) h)
