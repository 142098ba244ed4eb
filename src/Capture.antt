-- ===== src/Capture.antt =====
-- src/captureif.h, src/captureif.c and readFromSocket of src/capture/capture_bluez.c. What the
-- capture side tells the rest of the daemon is a list of calls of the functions of captureif.h;
-- `Lirc/Callback` carries them out.
pub mod Packets
pub mod Setup
pub mod Server
pub mod Bluetooth
use bdremote_ng.Prelude.{
  ℕ, zero, suc, ◌+◌, ◌*◌, ◌/◌, ◌-◌, ◌^◌, ℤ, pos, negsuc, minus_one, Bool, true, false, Option, none,
  some, List, [], ◌∷◌, ◌++◌, not, length, get_elem?, ltb, leb, ltb_ℤ, ◌==◌, if◌then◌else◌, Outcome,
  ok, stop, assertion, assert, ◌>>=◌, ◌>>◌,
}
use bdremote_ng.Text.{CString}
use bdremote_ng.Config.{Configuration}

-- `captureData`, without the pointer to the LIRC data
pub record CaptureData : Type 0 where
  pub magic0 : ℕ
  pub config : Option Configuration
  pub bt_dev_address : Option CString
  pub dest_address : Option CString
  pub timeout : ℤ
  pub sockets : List ℤ

is_unset : {A : Type 0} → Option A → Bool
is_unset none = true
is_unset (some a) = false

-- `memset(&sockets[0], 0, 2)`: two bytes, the low half of the first int
clear_two_bytes : List ℤ → List ℤ
clear_two_bytes [] = []
clear_two_bytes (pos n ∷ fds) = pos (n / 2 ^ 16 * 2 ^ 16) ∷ fds
clear_two_bytes (negsuc n ∷ fds) = negsuc (n / 2 ^ 16 * 2 ^ 16 + (2 ^ 16 - 1)) ∷ fds

-- InitCaptureData: `free` takes what the fields held before, and SETVAL copies.
unfoldable pub init_capture_data : CaptureData → Configuration → Outcome CaptureData
unfolding is_unset clear_two_bytes
init_capture_data cd config =
    assert (not (is_unset config.remote_addr))
    >> (assert (ltb_ℤ (pos 0) config.disconnect_timeout)
        >> (assert (is_unset cd.config)
            >> ok (record {
              magic0 = 127;
              config = some config;
              bt_dev_address = if config.interface_addr_set then config.interface_addr else none;
              dest_address = config.remote_addr;
              timeout = config.disconnect_timeout;
              sockets = clear_two_bytes cd.sockets;
            })))

-- DestroyCaptureData
unfoldable pub destroy_capture_data : CaptureData → CaptureData
destroy_capture_data cd = record cd { bt_dev_address = none; dest_address = none }

-- The callbacks of captureif.h that readFromSocket calls.
pub data Callback : Type 0 where
  remote_battery_charge : ℕ → Callback
  data_ind : List ℕ → Callback

-- What a round of the loop meets: the flag __io_canceled is set, ppoll reports nothing within its
-- second, recv fails or finds the end, or recv hands over some bytes.
pub data Poll : Type 0 where
  canceled : Poll
  silent : Poll
  hung_up : Poll
  received : List ℕ → Poll

-- The ends of readFromSocket, and the loop that still runs, with its number of seconds.
pub data Reading : Type 0 where
  shut_down : Reading
  disconnected : Reading
  timed_out : Reading
  running : ℕ → Reading

-- the switch over `buffer[12]`
unfoldable pub battery_status : Option ℕ → List Callback
battery_status none = []
battery_status (some b) = if leb b 5 then remote_battery_charge (b * 20) ∷ [] else []

-- what follows a recv of some bytes; a report that is longer than 12 bytes carries the battery
unfoldable pub on_data : List ℕ → List Callback → List Callback
unfolding battery_status
on_data bytes later = battery_status (get_elem? bytes 12) ++ (data_ind bytes ∷ later)

-- readFromSocket from its loop's head on, with `numberOfSeconds`; without the assert on magic0, which
-- InitCaptureData sets
unfoldable pub read_from_socket : ℤ → ℕ → List Poll → List Callback × Reading
read_from_socket timeout seconds [] = ([], running seconds)
read_from_socket timeout seconds (canceled ∷ polls) = ([], shut_down)
read_from_socket timeout seconds (silent ∷ polls) =
    let later = read_from_socket timeout (seconds + 1) polls in
    if ltb_ℤ timeout (pos seconds) then ([], timed_out) else later
read_from_socket timeout seconds (hung_up ∷ polls) =
    if ltb_ℤ timeout (pos seconds) then ([], timed_out) else ([], disconnected)
read_from_socket timeout seconds (received bytes ∷ polls) =
    let later = read_from_socket timeout 0 polls in
    if ltb_ℤ timeout (pos seconds)
    then ([], timed_out)
    else if length bytes == 0
    then ([], disconnected)
    else (on_data bytes later.0, later.1)
