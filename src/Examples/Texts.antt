-- ===== src/Examples/Texts.antt =====
-- What the program prints: usage, the configuration, a message of the log.
use bdremote_ng.Prelude.{
  ℕ, ◌≡◌, ◌≢◌, ◌↔◌, refl, pos, true, false, Option, none, some, List, [], ◌∷◌, ◌++◌, ok, stop,
  exited,
}
use bdremote_ng.Text.{CString, codes, decimal, padded}
use bdremote_ng.Config.{Configuration, zeroed, set_defaults}
use bdremote_ng.Config.Print.{print_config}
use bdremote_ng.Config.Print.Total.{Printed, print_config-configure}
use bdremote_ng.Main.Options
use bdremote_ng.Main.Options.{handle_option}
use bdremote_ng.Main.Options.Accepted.{wants_argument}
use bdremote_ng.Main.Usage.{first_options, last_options, described, entry}
use bdremote_ng.Main.Usage.Options.{usage-options}
use bdremote_ng.Logging.{bdr_get_filename, last_slash, offset_of}
use bdremote_ng.Logging.FileName.{FileName}
use bdremote_ng.Logging.Masks.{
  Tm, Place, lirc_thr, queue, joined, time_stamp, dbg_hdr, mask_check, bdremote_dbg,
}
use bdremote_ng.Logging.Masks.Written.{bdremote_dbg-written}
use bdremote_ng.Config

abbrev arguments : List (ℕ × Option CString)
arguments = (b'a', some (codes "00:11")) ∷ (b'd', none) ∷ []

abbrev chosen : Configuration
chosen = record (set_defaults zeroed) { debug = true; remote_addr = some (codes "00:11") }

configure-arguments : Options.configure arguments ≡ ok chosen
unfolding Options.configure Options.handle_options handle_option Config.set_remote_address
    set_defaults
configure-arguments = refl

print_config-configure_example : Printed (print_config false 255 chosen)
print_config-configure_example = print_config-configure false 255 arguments configure-arguments

usage-options_example :
    let es = described (first_options ++ last_options) in
    ((entry b'p' es ≡ some true) ↔ (wants_argument b'p' ≡ true))
    × ((handle_option b'p' (some (codes "1")) chosen ≢ stop (exited 0))
        ↔ ((entry b'p' es ≢ none) × (◌≢◌ {A = ℕ} b'p' b'h')))
usage-options_example = usage-options b'p' (codes "1") chosen

abbrev noon : ℕ → Tm
noon t = record { tm_hour = 12; tm_min = 0; tm_sec = 5 }

abbrev place : Place
place = record { file = codes "src/q.c"; line = 99; time = 0 }

bdremote_dbg-written_example :
    (name : CString) × FileName (codes "src/q.c") name
    × (bdremote_dbg noon (joined (lirc_thr ∷ queue ∷ [])) 0x20 true place (codes "Init queue.")
        ≡ ok (
            (name
              ++ (codes ":"
                  ++ (decimal (pos 99) ++ (codes " -> " ++ (time_stamp noon 0 ++ codes ":\n")))))
            ++ (codes "Init queue." ++ codes "\n")))
bdremote_dbg-written_example =
    bdremote_dbg-written noon (lirc_thr ∷ queue ∷ []) queue true place (codes "Init queue.")

-- the message itself
written :
    bdremote_dbg noon (joined (lirc_thr ∷ queue ∷ [])) 0x20 true place (codes "Init queue.")
    ≡ ok (codes "q.c:99 -> 12:0:5:\nInit queue.\n")
unfolding bdremote_dbg dbg_hdr mask_check joined bdr_get_filename last_slash offset_of time_stamp
    decimal padded
written = refl
