-- ===== src/EventOut.antt =====
-- src/event_out.c: the uinput device. `event_out_fd` of the source, -1 without a device, is passed
-- along beside the trace of calls.
pub mod Descriptor
use bdremote_ng.Prelude.{
  ℕ, ℤ, pos, minus_one, eq_ℤ, Bool, true, false, List, [], ◌∷◌, if◌then◌else◌, String, map, take,
  ◌&&◌, not,
}
use bdremote_ng.Text.{CString, codes}
use bdremote_ng.Sys.{
  Env, Trace, perform, open_device, write_device, set_key_events, set_key_bit, create_device,
  destroy_device, write_event, close,
}
use bdremote_ng.Keys.{KeyInfo, keys, num_keys}

pub record Device : Type 0 where
  pub event_out_fd : ℤ
  pub trace : Trace

-- The result of the write is not looked at.
unfoldable pub event_out_send : Env → ℕ → ℕ → Device → Device
event_out_send env code value d =
    if eq_ℤ d.event_out_fd minus_one
    then d
    else record d { trace = (perform env (write_event d.event_out_fd code value) d.trace).1 }

unfoldable pub event_out_destroy : Env → Device → Device
event_out_destroy env d =
    if eq_ℤ d.event_out_fd minus_one
    then d
    else let (r, t) = perform env (destroy_device d.event_out_fd) d.trace in
      record { event_out_fd = minus_one; trace = (perform env (close d.event_out_fd) t).1 }

abbrev pub device_names : List CString
device_names = codes "/dev/uinput" ∷ codes "/dev/input/uinput" ∷ codes "/dev/misc/uinput" ∷ []

-- the loop over the device names
unfoldable pub open_first : Env → List CString → Trace → Device
open_first env [] t = record { event_out_fd = minus_one; trace = t }
open_first env (name ∷ names) t =
    let (fd, t') = perform env (open_device name) t in
    if eq_ℤ fd minus_one then open_first env names t' else record { event_out_fd = fd; trace = t' }

-- the four lines on a failed step
unfoldable pub give_up : Env → ℤ → Trace → Device
give_up env fd t = record { event_out_fd = minus_one; trace = (perform env (close fd) t).1 }

-- the loop over the keys, and the last step
unfoldable pub enable_keys : Env → ℤ → List KeyInfo → Trace → Device
enable_keys env fd [] t =
    let (r, t') = perform env (create_device fd) t in
    if eq_ℤ r (pos 0) then record { event_out_fd = fd; trace = t' } else give_up env fd t'
enable_keys env fd (k ∷ ks) t =
    let (r, t') = perform env (set_key_bit fd k.event_code) t in
    if eq_ℤ r (pos 0) then enable_keys env fd ks t' else give_up env fd t'

-- `device_size` is sizeof(struct uinput_user_dev).
unfoldable pub set_up : Env → (device_size : ℕ) → ℤ → Trace → Device
set_up env device_size fd t =
    let (wrote, t1) = perform env (write_device fd) t in
    if eq_ℤ wrote (pos device_size)
    then (let (r, t2) = perform env (set_key_events fd) t1 in
        if eq_ℤ r (pos 0) then enable_keys env fd (take num_keys keys) t2 else give_up env fd t2)
    else give_up env fd t1

unfoldable pub event_out_init : Env → (device_size : ℕ) → Trace → Device
event_out_init env device_size t =
    let d = open_first env device_names t in
    if eq_ℤ d.event_out_fd minus_one then d else set_up env device_size d.event_out_fd d.trace

unfoldable pub send_all : Env → List (ℕ × ℕ) → Device → Device
send_all env [] d = d
send_all env (e ∷ es) d = send_all env es (event_out_send env e.0 e.1 d)

-- The calls of the daemon from its start to its end, with the events that the LIRC thread sends.
unfoldable pub device_session : Env → (device_size : ℕ) → List (ℕ × ℕ) → Trace → Device
device_session env device_size events t =
    event_out_destroy env (send_all env events (event_out_init env device_size t))
