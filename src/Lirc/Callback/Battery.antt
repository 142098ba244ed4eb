-- ===== src/Lirc/Callback/Battery.antt =====
-- src/lirc_callback.c: when the battery script is called.
use bdremote_ng.Prelude.{
  ◌≡◌, refl, ap, sym, ◌∙◌, ℤ, pos, eq_ℤ, true, false, some, List, [], ◌∷◌, ◌++◌, map, if◌then◌else◌,
  Bool-cases, inl, inr, append-nil, append_assoc,
}
use bdremote_ng.Text.{CString}
use bdremote_ng.Sys.{Env, Trace, Call, access, system}
use bdremote_ng.Lirc.{LircData}
use bdremote_ng.Lirc.Callback.{
  command, cmd_len, snprintf_into, call_script, call_battery_charge_script, on_battery_charge,
}

abbrev ran : Call → List CString
ran (system cmd) = cmd ∷ []
ran _ = []

-- the commands given to system(), oldest first
abbrev pub commands : Trace → List CString
commands [] = []
commands (e ∷ t) = commands t ++ ran e.call

-- reports of the charge, one after another
abbrev pub battery_charges : Env → List ℤ → LircData → Trace → LircData × Trace
battery_charges env [] d t = (d, t)
battery_charges env (v ∷ vs) d t =
    let (d1, t1) = on_battery_charge env v d t in battery_charges env vs d1 t1

-- the readings without those that repeat the one before, `v` at first
abbrev pub changes : ℤ → List ℤ → List ℤ
changes v [] = []
changes v (x ∷ xs) = if eq_ℤ v x then changes v xs else x ∷ changes x xs

-- each value with the one before it, `v` at first
abbrev pub with_previous : ℤ → List ℤ → List (ℤ × ℤ)
with_previous v [] = []
with_previous v (x ∷ xs) = (v, x) ∷ with_previous x xs

-- access() finds the script readable and executable, whenever it is asked.
pub record IsAccessible (env : Env) (script : CString) : Type 0 where
  pub found : (t : Trace) → env.answer t (access script) ≡ pos 0

abbrev pub script_calls : CString → List (ℤ × ℤ) → List CString
script_calls script ps = map (λ p. snprintf_into cmd_len (command script p.0 p.1)) ps

commands-call_battery_charge_script :
    (env : Env) (d : LircData) (script : CString) (prev now : ℤ) (t : Trace)
    → IsAccessible env script
    → d.config.battery_script_set ≡ true
    → d.config.battery_script ≡ some script
    → commands (call_battery_charge_script env d.config prev now t)
      ≡ commands t ++ (snprintf_into cmd_len (command script prev now) ∷ [])
unfolding call_battery_charge_script call_script
commands-call_battery_charge_script env d script prev now t a on there =
    rw (on, there, a.found t)
      (ap (λ cs. cs ++ (snprintf_into cmd_len (command script prev now) ∷ [])) (append-nil _))

charge-same :
    (env : Env) (v : ℤ) (d : LircData) (t : Trace)
    → d.charge_percent_set ≡ true
    → eq_ℤ d.charge_percent v ≡ true
    → on_battery_charge env v d t ≡ (d, t)
unfolding on_battery_charge
charge-same env v d t known same = simp (known, same)

charge-other :
    (env : Env) (v : ℤ) (d : LircData) (t : Trace)
    → d.charge_percent_set ≡ true
    → eq_ℤ d.charge_percent v ≡ false
    → on_battery_charge env v d t ≡ (
      record d { charge_percent = v },
      call_battery_charge_script env d.config d.charge_percent v t,
    )
unfolding on_battery_charge
charge-other env v d t known other = simp (known, other)

charge-first :
    (env : Env) (v : ℤ) (d : LircData) (t : Trace)
    → d.charge_percent_set ≡ false
    → on_battery_charge env v d t ≡ (
      record d { charge_percent = v; charge_percent_set = true },
      call_battery_charge_script env d.config v v t,
    )
unfolding on_battery_charge
charge-first env v d t fresh = simp fresh

battery_charges-step :
    (env : Env) (v : ℤ) (vs : List ℤ) (d : LircData) (t : Trace) {d1 : LircData} {t1 : Trace}
    → on_battery_charge env v d t ≡ (d1, t1)
    → commands (battery_charges env (v ∷ vs) d t).1 ≡ commands (battery_charges env vs d1 t1).1
battery_charges-step env v vs d t e = ap (λ p. commands (battery_charges env vs p.0 p.1).1) e

later_charges :
    (env : Env) (script : CString) (vs : List ℤ) (d : LircData) (t : Trace)
    → IsAccessible env script
    → d.config.battery_script_set ≡ true
    → d.config.battery_script ≡ some script
    → d.charge_percent_set ≡ true
    → commands (battery_charges env vs d t).1
      ≡ commands t
        ++ script_calls script (with_previous d.charge_percent (changes d.charge_percent vs))
later_charges env script [] d t a on there known = sym (append-nil _)
later_charges env script (v ∷ vs) d t a on there known =
    elim (Bool-cases (eq_ℤ d.charge_percent v)) [
      | inl same ↦ rw same (
          battery_charges-step env v vs d t (charge-same env v d t known same)
          ∙ later_charges env script vs d t a on there known)
      | inr other ↦
          let line = snprintf_into cmd_len (command script d.charge_percent v) in
          let pairs = script_calls script (with_previous v (changes v vs)) in
          rw other (
            battery_charges-step env v vs d t (charge-other env v d t known other)
            ∙ later_charges env script vs (record d { charge_percent = v })
                (call_battery_charge_script env d.config d.charge_percent v t) a on there known
            ∙ ap (λ cs. cs ++ pairs)
                (commands-call_battery_charge_script env d script d.charge_percent v t a on there)
            ∙ append_assoc (commands t) (line ∷ []) pairs)
    ]

-- RemoteBatteryCharge, over any reports of the charge of a remote that was not seen before, with a
-- battery script that is configured and accessible, gives system() one command for the first report,
-- with that charge twice, and one for each report that differs from the one before it, with the
-- charge before and the new one; it gives none for a report that repeats the charge. A command is
-- cut to the 511 bytes that its array holds.
pub battery_charges-commands :
    (env : Env) (script : CString) (v : ℤ) (vs : List ℤ) (d : LircData) (t : Trace)
    → IsAccessible env script
    → d.config.battery_script_set ≡ true
    → d.config.battery_script ≡ some script
    → d.charge_percent_set ≡ false
    → commands (battery_charges env (v ∷ vs) d t).1
      ≡ commands t ++ script_calls script ((v, v) ∷ with_previous v (changes v vs))
battery_charges-commands env script v vs d t a on there fresh =
    let pairs = script_calls script (with_previous v (changes v vs)) in
    battery_charges-step env v vs d t (charge-first env v d t fresh)
    ∙ later_charges env script vs (record d { charge_percent = v; charge_percent_set = true })
        (call_battery_charge_script env d.config v v t) a on there refl
    ∙ ap (λ cs. cs ++ pairs) (commands-call_battery_charge_script env d script v v t a on there)
    ∙ append_assoc (commands t) (snprintf_into cmd_len (command script v v) ∷ []) pairs
