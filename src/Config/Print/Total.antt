-- ===== src/Config/Print/Total.antt =====
-- printConfig on the configurations that main prints.
use bdremote_ng.Prelude.{
  ℕ, ◌≡◌, ◌≢◌, ◌↔◌, refl, Bool, true, false, String, Option, none, some, List, Outcome, ok, ◌>>=◌,
}
use bdremote_ng.Text.{CString, codes}
use bdremote_ng.Config.{Configuration}
use bdremote_ng.Config.Flags.{IsConsistent}
use bdremote_ng.Main.Options.{configure}
use bdremote_ng.Main.Options.Accepted.{configure-IsConsistent}
use bdremote_ng.Config.Print.{
  string, print_flagged, print_interface, print_log, print_script, print_all, print_config,
}

abbrev pub Printed : Outcome CString → Type 0
Printed m = (text : CString) × (m ≡ ok text)

Printed-bind :
    (m : Outcome CString) (f : CString → Outcome CString)
    → Printed m
    → ((s : CString) → Printed (f s))
    → Printed (m >>= f)
Printed-bind m f (s, e) k = rw e (k s)

-- A string under a flag that agrees with it can be printed.
print_flagged-ok :
    (flag : Bool) (before : String) (o : Option CString) (after : String) (otherwise : CString)
    → ((flag ≡ false) ↔ (o ≡ none))
    → Printed (print_flagged flag before o after otherwise)
unfolding print_flagged
print_flagged-ok false before o after otherwise agrees = (otherwise, refl)
print_flagged-ok true before (some s) after otherwise agrees = (_, refl)
print_flagged-ok true before none after otherwise agrees = cc (agrees.1 refl)

string-ok : (o : Option CString) → o ≢ none → Printed (string o)
unfolding string
string-ok none h = absurd (h refl)
string-ok (some s) h = (s, refl)

print_interface-ok : (c : Configuration) → IsConsistent c → Printed (print_interface c)
unfolding print_interface
print_interface-ok c v =
    print_flagged-ok c.interface_addr_set " - iface addr  : " c.interface_addr ".\n"
      (codes " - iface addr  : ANY.\n") v.interface_agrees

print_log-ok : (c : Configuration) → IsConsistent c → Printed (print_log c)
unfolding print_log
print_log-ok c v =
    print_flagged-ok c.log_filename_set " - log         : '" c.log_filename "'.\n"
      (codes " - log         : stdout.\n") v.log_agrees

print_script-ok : (c : Configuration) → IsConsistent c → Printed (print_script c)
unfolding print_script
print_script-ok c v =
    print_flagged-ok c.battery_script_set " - script    : '" c.battery_script "'.\n"
      (codes " - script    : not set.\n") v.battery_agrees

print_config-ok :
    (enable_repeat : Bool) (log_mask : ℕ) (c : Configuration)
    → IsConsistent c
    → c.remote_addr ≢ none
    → Printed (print_config enable_repeat log_mask c)
unfolding print_config
print_config-ok enable_repeat log_mask c v remote =
    Printed-bind (print_interface c) _ (print_interface-ok c v) λ interface.
      Printed-bind (string c.remote_addr) _ (string-ok c.remote_addr remote) λ address.
        Printed-bind (print_log c) _ (print_log-ok c v) λ log.
          Printed-bind (print_script c) _ (print_script-ok c v)
            λ script. (print_all enable_repeat log_mask c interface address log script, refl)

-- printConfig hands no NULL to a `%s` and writes its text, in either build and with any log mask, on
-- every configuration that the command line makes.
pub print_config-configure :
    (enable_repeat : Bool) (log_mask : ℕ) (os : List (ℕ × Option CString)) {c : Configuration}
    → configure os ≡ ok c
    → Printed (print_config enable_repeat log_mask c)
print_config-configure enable_repeat log_mask os {c} e =
    let (v, remote) = configure-IsConsistent os e in
    print_config-ok enable_repeat log_mask c v remote
