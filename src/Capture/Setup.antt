-- ===== src/Capture/Setup.antt =====
-- src/captureif.c: InitCaptureData on the configuration that the command line gives.
use bdremote_ng.Prelude.{
  [], ◌∷◌, ℕ, pos, ltb_ℤ, false, Option, none, some, List, ◌≡◌, ◌≢◌, refl, arith, if◌then◌else◌,
  Bool-cases, inl, inr, ok, stop, assertion,
}
use bdremote_ng.Text.{CString}
use bdremote_ng.Config.{Configuration}
use bdremote_ng.Config.Flags.{IsConsistent}
use bdremote_ng.Main.Options.{configure}
use bdremote_ng.Main.Options.Accepted.{configure-IsConsistent}
use bdremote_ng.Capture.{CaptureData, init_capture_data, is_unset}

-- the memory that main clears with memset
abbrev pub cleared : CaptureData
cleared = record {
  magic0 = 0;
  config = none;
  bt_dev_address = none;
  dest_address = none;
  timeout = pos 0;
  sockets = pos 0 ∷ pos 0 ∷ pos 0 ∷ [];
}

interface_of :
    (c : Configuration)
    → IsConsistent c
    → (if c.interface_addr_set then c.interface_addr else none) ≡ c.interface_addr
interface_of c v = ground (arith, v.interface_agrees)

remote_is_set : (o : Option CString) → o ≢ none → is_unset o ≡ false
unfolding is_unset
remote_is_set none h = absurd (h refl)
remote_is_set (some s) h = refl

-- InitCaptureData, on the cleared capture data and the configuration that a command line gives,
-- fails an assert exactly when the time-out of that configuration is not positive; else the capture
-- data has the addresses of that configuration, that of the interface only if one was given, and its
-- time-out.
pub init_capture_data-configure :
    (os : List (ℕ × Option CString)) {c : Configuration}
    → configure os ≡ ok c
    → init_capture_data cleared c ≡ (
        if ltb_ℤ (pos 0) c.disconnect_timeout
        then ok (record {
          magic0 = 127;
          config = some c;
          bt_dev_address = c.interface_addr;
          dest_address = c.remote_addr;
          timeout = c.disconnect_timeout;
          sockets = pos 0 ∷ pos 0 ∷ pos 0 ∷ [];
        })
        else stop assertion)
unfolding init_capture_data is_unset
init_capture_data-configure os {c} e =
    let (v, there) = configure-IsConsistent os e in
    let given = remote_is_set c.remote_addr there in
    elim (Bool-cases (ltb_ℤ (pos 0) c.disconnect_timeout)) [
      | inl positive ↦ simp (positive, given, interface_of c v)
      | inr not_positive ↦ simp (not_positive, given)
    ]
