-- ===== src/Capture/Bluetooth.antt =====
-- src/capture/capture_bluez.c: l2cap_listen, bt_device_exists, InitcaptureLoop and captureLoop. BlueZ
-- and the kernel give the addresses; the descriptors are followed through the trace of calls. The
-- asserts of l2cap_checkSource and bt_device_exists, which compare sizeof of a bdaddr_t with sizeof of
-- another, are left out.
pub mod Descriptors
pub mod Sockets
pub mod Lifecycle
use bdremote_ng.Prelude.{
  ℕ, suc, ◌+◌, ℤ, pos, minus_one, eq_ℤ, ltb_ℤ, leb, Bool, true, false, ◌&&◌, Option, none, some,
  List, [], ◌∷◌, if◌then◌else◌, Outcome, ok, stop, exited, no_memory, not, assert, ◌>>=◌, ◌>>◌,
  get_or,
}
use bdremote_ng.Text.{CString}
use bdremote_ng.Sys.{
  Env, Trace, perform, close, listen, control_socket, hidp_socket, l2cap_socket, bind_l2cap,
  set_link_mode, set_l2cap_options, get_device_list, get_device_info, open_adapter, read_adapter,
  close_adapter,
}
use bdremote_ng.Capture.{CaptureData, Callback, is_unset}
use bdremote_ng.Capture.Server.{same_bytes, Meeting, run_server}

-- A Bluetooth address by its bytes.
abbrev pub Address : Type 0
Address = List ℕ

abbrev pub any_address : Address
any_address = 0 ∷ 0 ∷ 0 ∷ 0 ∷ 0 ∷ 0 ∷ []

-- An adapter of the machine: its number and address, whether HCI_RAW is set, and the address that
-- hci_read_bd_addr stores, if it succeeds.
pub record Adapter : Type 0 where
  pub dev_id : ℕ
  pub address : Address
  pub is_raw : Bool
  pub read_back : Option Address

-- What BlueZ and the machine give: the address of the first adapter (hci_devinfo), the texts of
-- addresses (ba2str, str2ba), the adapters of the device list, and whether there is memory for that
-- list and for the text of an address.
pub record Bluez : Type 0 where
  pub first : Option Address
  pub ba2str : Address → Option CString
  pub str2ba : CString → Option Address
  pub adapters : List Adapter
  pub has_memory : Bool
  pub has_text_memory : Bool

-- L2CAP_PSM_HIDP_CTRL and L2CAP_PSM_HIDP_INTR
abbrev pub psm_control : ℕ
psm_control = 0x11

abbrev pub psm_interrupt : ℕ
psm_interrupt = 0x13

-- what follows socket() in l2cap_listen; the results of setsockopt are not looked at
unfoldable pub bind_and_listen : Env → Address → ℕ → ℤ → Trace → ℤ × Trace
bind_and_listen env address psm sk t =
    let (bound, t1) = perform env (bind_l2cap sk address psm) t in
    let (m, t2) = perform env (set_link_mode sk) t1 in
    let (o, t3) = perform env (set_l2cap_options sk) t2 in
    let (listening, t4) = perform env (listen sk) t3 in
    if ltb_ℤ bound (pos 0)
    then (minus_one, (perform env (close sk) t1).1)
    else if ltb_ℤ listening (pos 0)
    then (minus_one, (perform env (close sk) t4).1)
    else (sk, t4)

-- l2cap_listen
unfoldable pub l2cap_listen : Env → Address → ℕ → Trace → ℤ × Trace
l2cap_listen env address psm t =
    let (sk, t1) = perform env l2cap_socket t in
    if ltb_ℤ sk (pos 0) then (minus_one, t1) else bind_and_listen env address psm sk t1

-- `di.bdaddr` where the raw device has an address to be read
unfoldable pub stored_address : Adapter → Address
stored_address a = elim a.read_back [ none ↦ a.address | some b ↦ b ]

-- the calls that read it
unfoldable pub read_address : Env → Adapter → Trace → Trace
read_address env a t =
    let (dd, t1) = perform env (open_adapter a.dev_id) t in
    let (r, t2) = perform env (read_adapter dd) t1 in (perform env (close_adapter dd) t2).1

-- the address of a device of the list: a raw one without an address is asked for it
unfoldable pub examine : Env → Adapter → Trace → Address × Trace
unfolding stored_address read_address
examine env a t =
    if a.is_raw && same_bytes a.address any_address
    then (stored_address a, read_address env a t)
    else (a.address, t)

-- the loop of bt_device_exists over the device list: whether the address was found
unfoldable pub find_device : Env → ℤ → Address → List Adapter → Trace → Bool × Trace
find_device env ctl wanted [] t = (false, t)
find_device env ctl wanted (a ∷ others) t =
    let (r, t1) = perform env (get_device_info ctl a.dev_id) t in
    let (address, t2) = examine env a t1 in
    let skipped = find_device env ctl wanted others t1 in
    let rest = find_device env ctl wanted others t2 in
    if ltb_ℤ r (pos 0) then skipped else if same_bytes address wanted then (true, t2) else rest

-- bt_device_exists once the control socket is there
unfoldable pub look_up : Bluez → Env → Address → ℤ → Trace → ℤ × Trace
look_up bt env wanted ctl t =
    let (listed, t1) = perform env (get_device_list ctl) t in
    let (found, t2) = find_device env ctl wanted bt.adapters t1 in
    if bt.has_memory
    then (if ltb_ℤ listed (pos 0)
        then (minus_one, t1)
        else (if found then pos 0 else minus_one, (perform env (close ctl) t2).1))
    else (minus_one, t)

-- bt_device_exists
unfoldable pub bt_device_exists : Bluez → Env → Address → Trace → Outcome (ℤ × Trace)
bt_device_exists bt env wanted t =
    let (ctl, t1) = perform env control_socket t in
    if ltb_ℤ ctl (pos 0) then stop (exited 1) else ok (look_up bt env wanted ctl t1)

unfoldable pub parsed : Bluez → Option CString → Option Address
parsed bt none = none
parsed bt (some s) = bt.str2ba s

-- the text of ba2str, in the new memory
write_text : Bluez → CaptureData → Option CString → Outcome (Option Address × CaptureData)
unfolding is_unset
write_text bt cd none = ok (none, record cd { bt_dev_address = some [] })
write_text bt cd (some s) =
    let cd1 = record cd { bt_dev_address = some s } in
    assert (not (is_unset cd1.bt_dev_address)) >> ok (bt.str2ba s, cd1)

-- hci_devinfo, and malloc and memset of 127 bytes
first_address : Bluez → CaptureData → Option Address → Outcome (Option Address × CaptureData)
unfolding write_text
first_address bt cd none = ok (none, cd)
first_address bt cd (some a) =
    assert (is_unset cd.bt_dev_address)
    >> (if bt.has_text_memory then write_text bt cd (bt.ba2str a) else stop no_memory)

-- the first part of InitcaptureLoop: the address of the interface, if it can be had, and the data
-- with its text
unfoldable pub own_address : Bluez → CaptureData → Outcome (Option Address × CaptureData)
unfolding first_address
own_address bt cd =
    if is_unset cd.bt_dev_address
    then first_address bt cd bt.first
    else assert (not (is_unset cd.bt_dev_address)) >> ok (parsed bt cd.bt_dev_address, cd)

-- InitcaptureLoop from `ctl = socket(..)` on
unfoldable pub open_sockets : Env → Address → CaptureData → Trace → ℤ × CaptureData × Trace
open_sockets env address cd t =
    let (ctl, t1) = perform env hidp_socket t in
    let (csk, t2) = l2cap_listen env address psm_control t1 in
    let (isk, t3) = l2cap_listen env address psm_interrupt t2 in
    if ltb_ℤ ctl (pos 0)
    then (minus_one, cd, t1)
    else if ltb_ℤ csk (pos 0)
    then (minus_one, cd, (perform env (close ctl) t2).1)
    else if ltb_ℤ isk (pos 0)
    then (minus_one, cd, (perform env (close csk) (perform env (close ctl) t3).1).1)
    else (pos 0, record cd { sockets = ctl ∷ csk ∷ isk ∷ [] }, t3)

-- `if (ret == BDREMOTE_FAIL)` after bt_device_exists
unfoldable pub open_if_found : Env → Address → CaptureData → ℤ × Trace → ℤ × CaptureData × Trace
open_if_found env address cd (ret, t) =
    if eq_ℤ ret minus_one then (minus_one, cd, t) else open_sockets env address cd t

unfoldable pub with_address :
    Bluez → Env → CaptureData → Option Address → Trace → Outcome (ℤ × CaptureData × Trace)
with_address bt env cd none t = ok (minus_one, cd, t)
with_address bt env cd (some address) t =
    bt_device_exists bt env address t >>= (λ r. ok (open_if_found env address cd r))

-- InitcaptureLoop
unfoldable pub init_capture_loop :
    Bluez → Env → CaptureData → Trace → Outcome (ℤ × CaptureData × Trace)
unfolding with_address
init_capture_loop bt env cd t =
    own_address bt cd >>= (λ (address, cd1). with_address bt env cd1 address t)

-- run_server up to its loop: an address of the remote that str2ba refuses ends it.
unfoldable pub serve_address :
    Env → (csk isk timeout : ℤ) → Option Address → List Meeting → Trace → List Callback × Trace
serve_address env csk isk timeout none ms t = ([], t)
serve_address env csk isk timeout (some address) ms t = run_server env csk isk timeout address ms t

-- captureLoop, without its result, which is always BDREMOTE_OK
unfoldable pub capture_loop :
    Bluez → Env → CaptureData → List Meeting → Trace → List Callback × Trace
unfolding serve_address parsed
capture_loop bt env cd ms t =
    let ctl = get_or cd.sockets 0 minus_one in
    let csk = get_or cd.sockets 1 minus_one in
    let isk = get_or cd.sockets 2 minus_one in
    let (told, t1) = serve_address env csk isk cd.timeout (parsed bt cd.dest_address) ms t in
    (told, (perform env (close ctl) (perform env (close isk) (perform env (close csk) t1).1).1).1)
