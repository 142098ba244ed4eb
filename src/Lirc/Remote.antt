-- ===== src/Lirc/Remote.antt =====
-- src/lirc_thr.c: what the LIRC thread does with a packet of the remote. The mask of a packet is only
-- logged and left out.
pub mod Clock
pub mod Press
pub mod Overflow
pub mod Crowded
pub mod Thread
use bdremote_ng.Prelude.{
  ℕ, ◌+◌, ℤ, pos, negsuc, Bool, true, false, ◌&&◌, Option, none, some, List, [], ◌∷◌, ◌++◌, length,
  get_elem?, eq_ℤ, ltb, ◌==◌, if◌then◌else◌, Outcome, ok, stop, out_of_bounds, assert, in_bounds,
  ◌>>=◌, ◌>>◌,
}
use bdremote_ng.Text.{CString}
use bdremote_ng.Sys.{Env, Timeval}
use bdremote_ng.Keys.{KeyInfo, keys, undef, keyup_code, code_to_index}
use bdremote_ng.Config.{Configuration}
use bdremote_ng.EventOut.{Device, event_out_send}
use bdremote_ng.Lirc.{LircData}
use bdremote_ng.Lirc.Broadcast.{broadcast_to_lirc}

-- `keyState`. `elapsed` is an unsigned long.
pub record KeyState : Type 0 where
  pub key_down : Bool
  pub last_key : ℤ
  pub cl0 : Timeval
  pub cl1 : Timeval
  pub elapsed : ℕ
  pub repeat_count : ℕ
  pub done_waiting : Bool

-- All that the LIRC thread works on.
pub record Machine : Type 0 where
  pub ld : LircData
  pub ks : KeyState
  pub device : Device

-- a read of `ps3remote_keys[num]`
unfoldable pub key_at : ℤ → Outcome KeyInfo
key_at (pos i) = in_bounds (get_elem? keys i)
key_at (negsuc n) = stop out_of_bounds

abbrev pub name_of : Configuration → KeyInfo → CString
name_of c k = if c.lirc_namespace then k.name_lirc else k.name_orig

unfoldable pub broadcast : Env → CString → ℕ → ℕ → Machine → Outcome Machine
broadcast env name rep code m =
    broadcast_to_lirc env m.ld name rep code m.device.trace
    >>= (λ p. ok (record m { ld = p.0; device = record m.device { trace = p.1 } }))

unfoldable pub send_event : Env → KeyInfo → ℕ → Machine → Machine
send_event env k value m =
    if m.ld.config.event_out
    then record m { device = event_out_send env k.event_code value m.device }
    else m

-- DataInd_keyDown, once the index is known
unfoldable pub announce : Env → ℤ → Machine → Outcome Machine
unfolding key_at broadcast send_event
announce env num m =
    if eq_ℤ num undef
    then ok m
    else key_at num >>= (λ k.
      broadcast env (name_of m.ld.config k) 0 k.code m >>= (λ m1. ok (send_event env k 1 m1)))

unfoldable pub data_ind_key_down : Env → ℕ → Machine → Outcome Machine
data_ind_key_down env code m =
    if code == keyup_code
    then announce env undef m
    else announce env (code_to_index code) (record m {
      ks = record m.ks { key_down = true; last_key = code_to_index code; repeat_count = 0 };
    })

-- the release message, if it is configured and fits `release_name`
unfoldable pub announce_release : Env → ℕ → KeyInfo → Option CString → Machine → Outcome Machine
unfolding broadcast
announce_release env code k none m = ok m
announce_release env code k (some suffix) m =
    if ltb (length (name_of m.ld.config k) + length suffix) 100
    then broadcast env (name_of m.ld.config k ++ suffix) 0 code m
    else ok m

abbrev pub released : Machine → Machine
released m = record m { ks = record m.ks { key_down = false; last_key = undef; repeat_count = 0 } }

unfoldable pub data_ind_key_up : Env → ℕ → Machine → Outcome Machine
data_ind_key_up env code m =
    if code == keyup_code
    then (if eq_ℤ m.ks.last_key undef
        then ok m
        else key_at m.ks.last_key >>= (λ k.
          announce_release env code k m.ld.config.release m
          >>= (λ m1. ok (released (send_event env k 0 m1)))))
    else ok m

-- the switch of handleKey over the state byte
unfoldable pub dispatch : Env → ℕ → ℕ → Machine → Outcome Machine
dispatch env state code m =
    if state == 1
    then data_ind_key_down env code m
    else if state == 0
    then data_ind_key_up env code m
    else ok m

-- handleKey: a packet has 13 bytes and begins with 0xa1; byte 5 is the code and byte 11 the state.
unfoldable pub handle_key : Env → List ℕ → ℕ → Machine → Outcome Machine
handle_key env bytes size m =
    assert (m.ld.magic0 == 0x15)
    >> (if size == 13
        then in_bounds (get_elem? bytes 0) >>= (λ magic.
          if magic == 0xa1
          then in_bounds (get_elem? bytes 11)
            >>= (λ state. in_bounds (get_elem? bytes 5) >>= (λ code. dispatch env state code m))
          else ok m)
        else ok m)
