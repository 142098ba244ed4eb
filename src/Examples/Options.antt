-- ===== src/Examples/Options.antt =====
-- The command line `-a 00:11 -p 8889 -d`.
use bdremote_ng.Prelude.{
  stop, assertion, if◌then◌else◌, ltb_ℤ, ℕ, ◌≡◌, refl, pos, true, Option, none, some, List, [], ◌∷◌,
  ok, get_elem?,
}
use bdremote_ng.Capture.{init_capture_data}
use bdremote_ng.Capture.Setup.{cleared, init_capture_data-configure}
use bdremote_ng.Text.{CString, codes}
use bdremote_ng.Config.{Configuration, zeroed, set_remote_address, set_defaults}
use bdremote_ng.Keys.{keys, KeyInfo}
use bdremote_ng.Main.Options.{configure, handle_options, handle_option, atoi_arg, atoi}
use bdremote_ng.Privileges.{change_uid_and_gid}
use bdremote_ng.Privileges.Dropped.{Dropped, change_uid_and_gid-Dropped}
use bdremote_ng.Examples.{world}
use bdremote_ng.Main.Options.Accepted.{IsOkOrExit, configure-IsOkOrExit}

abbrev arguments : List (ℕ × Option CString)
arguments = (b'a', some (codes "00:11")) ∷ (b'p', some (codes "8889")) ∷ (b'd', none) ∷ []

abbrev chosen : Configuration
chosen = record zeroed {
  listen_port = pos 8889;
  disconnect_timeout = pos 60;
  repeat_rate = pos 10;
  repeat_delay = pos 200;
  debug = true;
  detach = true;
  remote_addr = some (codes "00:11");
}

configure-arguments : configure arguments ≡ ok chosen
unfolding configure handle_options handle_option set_remote_address atoi_arg atoi set_defaults
configure-arguments = refl

configure-IsOkOrExit_example : IsOkOrExit (configure arguments)
configure-IsOkOrExit_example =
    configure-IsOkOrExit arguments ((λ e. cc), ((λ e. cc), ((λ e. cc), tt)))

abbrev enter : KeyInfo
enter = record {
  name_orig = codes "enter";
  name_lirc = codes "KEY_ENTER";
  event_code = 28;
  code = 0x0b;
  mask = 0x080000;
}

enter_at : get_elem? keys 0 ≡ some enter
unfolding keys
enter_at = refl

abbrev ids : CString → Option ℕ
ids name = some 1000

change_uid_and_gid-Dropped_example :
    (uid : ℕ) × (gid : ℕ) × (ids (codes "nobody") ≡ some uid)
    × (ids (codes "nogroup") ≡ some gid)
    × Dropped uid gid [] (change_uid_and_gid ids ids world (codes "nobody") (codes "nogroup") []).1
unfolding change_uid_and_gid
change_uid_and_gid-Dropped_example =
    change_uid_and_gid-Dropped ids ids world (codes "nobody") (codes "nogroup") [] refl

init_capture_data-configure_example : init_capture_data cleared chosen ≡ (
    if ltb_ℤ (pos 0) (pos 60)
    then ok (record {
      magic0 = 127;
      config = some chosen;
      bt_dev_address = none;
      dest_address = some (codes "00:11");
      timeout = pos 60;
      sockets = pos 0 ∷ pos 0 ∷ pos 0 ∷ [];
    })
    else stop assertion)
init_capture_data-configure_example = init_capture_data-configure arguments configure-arguments
