-- ===== src/Lirc/Callback.antt =====
-- src/lirc_callback.c: what the capture side tells the LIRC side. RemoteConnected and
-- RemoteDisconnected only log and are left out.
pub mod Battery
pub mod Packets
pub mod Unchanged
pub mod Silence
use bdremote_ng.Prelude.{
  ℕ, ◌-◌, ℤ, pos, eq_ℤ, Bool, true, false, Option, none, some, List, [], ◌∷◌, ◌++◌, take, length,
  ◌==◌, if◌then◌else◌, Outcome, ok, assert, ◌>>=◌, ◌>>◌,
}
use bdremote_ng.Text.{CString, codes, decimal}
use bdremote_ng.Sys.{Env, Trace, perform, access, system}
use bdremote_ng.Config.{Configuration}
use bdremote_ng.Queue.{Queue, QueueData, queue_data_init, add_section}
use bdremote_ng.Capture.{Callback, remote_battery_charge, data_ind}
use bdremote_ng.Lirc.{LircData}

abbrev pub cmd_len : ℕ
cmd_len = 512

-- `"%s '%d' '%d' &"`
abbrev pub command : CString → ℤ → ℤ → CString
command script prev now =
    script ++ (codes " '" ++ (decimal prev ++ (codes "' '" ++ (decimal now ++ codes "' &"))))

-- `snprintf` into an array of `size` bytes, the last for the NUL
abbrev pub snprintf_into : ℕ → CString → CString
snprintf_into size s = take (size - 1) s

-- CallBatteryChargeScript once the script is known to be set. `access` fails on a null pointer; the
-- result of snprintf is the length of the whole command, which is not 0.
unfoldable pub call_script : Env → Option CString → ℤ → ℤ → Trace → Trace
call_script env none prev now t = t
call_script env (some script) prev now t =
    let (result, t1) = perform env (access script) t in
    if eq_ℤ result (pos 0)
    then (perform env (system (snprintf_into cmd_len (command script prev now))) t1).1
    else t1

unfoldable pub call_battery_charge_script : Env → Configuration → ℤ → ℤ → Trace → Trace
unfolding call_script
call_battery_charge_script env config prev now t =
    if config.battery_script_set then call_script env config.battery_script prev now t else t

-- RemoteBatteryCharge
unfoldable pub on_battery_charge : Env → ℤ → LircData → Trace → LircData × Trace
on_battery_charge env val d t =
    if d.charge_percent_set
    then (if eq_ℤ d.charge_percent val then (d, t) else (
      record d { charge_percent = val },
      call_battery_charge_script env d.config d.charge_percent val t,
    ))
    else (
      record d { charge_percent = val; charge_percent_set = true },
      call_battery_charge_script env d.config val val t,
    )

queued : LircData → Option (Queue QueueData) → Option LircData
queued d none = none
queued d (some q) = some (record d { qu = q })

-- DataInd; `none` is the wait of queueAdd for room
unfoldable pub on_data_ind : List ℕ → LircData → Outcome (Option LircData)
unfolding queued
on_data_ind bytes d =
    assert (d.magic0 == 0x15)
    >> (queue_data_init (some bytes) (pos (length bytes))
        >>= (λ qd. ok (queued d (add_section d.qu qd))))

with_trace : Trace → Option LircData → Option (LircData × Trace)
with_trace t none = none
with_trace t (some d) = some (d, t)

unfoldable pub notify : Env → Callback → LircData → Trace → Outcome (Option (LircData × Trace))
unfolding with_trace
notify env (remote_battery_charge val) d t = ok (some (on_battery_charge env (pos val) d t))
notify env (data_ind bytes) d t = on_data_ind bytes d >>= (λ o. ok (with_trace t o))

-- The callbacks of a reading, one after another, until one waits: those that are left, and the
-- state.
go_on :
    List Callback
    → LircData
    → Trace
    → (LircData → Trace → Outcome (List Callback × LircData × Trace))
    → Option (LircData × Trace)
    → Outcome (List Callback × LircData × Trace)
go_on cs d t later none = ok (cs, d, t)
go_on cs d t later (some (d1, t1)) = later d1 t1

unfoldable pub notify_all :
    Env → List Callback → LircData → Trace → Outcome (List Callback × LircData × Trace)
unfolding go_on
notify_all env [] d t = ok ([], d, t)
notify_all env (c ∷ cs) d t = notify env c d t >>= go_on (c ∷ cs) d t (notify_all env cs)
