-- ===== src/Main/Usage/Options.antt =====
-- The options that usage describes are those that main takes.
use bdremote_ng.Prelude.{
  ℕ, ◌≡◌, ◌≢◌, ◌↔◌, refl, sym, subst, arith, Bool, true, false, none, some, List, [], ◌∷◌, ◌++◌,
  stop, exited,
}
use bdremote_ng.Text.{CString}
use bdremote_ng.Config.{
  Configuration, set_remote_address, set_interface_address, set_release, set_user, set_group,
  set_battery_script, set_log_filename,
}
use bdremote_ng.Main.Options.{atoi_arg, handle_option}
use bdremote_ng.Main.Options.Accepted.{wants_argument}
use bdremote_ng.Main.Usage.{first_options, last_options, described, entry}

abbrev options : List (ℕ × Bool)
options =
    (b'p', true)
    ∷ (b't', true)
    ∷ (b'i', true)
    ∷ (b'a', true)
    ∷ (b'b', true)
    ∷ (b'r', true)
    ∷ (b'e', true)
    ∷ (b'R', true)
    ∷ (b'l', false)
    ∷ (b'E', false)
    ∷ (b'u', true)
    ∷ (b'g', true)
    ∷ (b'f', true)
    ∷ (b'd', false)
    ∷ (b'n', false)
    ∷ (b'h', false)
    ∷ []

described-options : described (first_options ++ last_options) ≡ options
unfolding described first_options last_options
described-options = refl

entry-wants_argument : (opt : ℕ) → (entry opt options ≡ some true) ↔ (wants_argument opt ≡ true)
entry-wants_argument opt = ground arith

entry-handle_option :
    (opt : ℕ) (s : CString) (c : Configuration)
    → (handle_option opt (some s) c ≢ stop (exited 0)) ↔ ((entry opt options ≢ none) × (opt ≢ b'h'))
unfolding handle_option atoi_arg set_remote_address set_interface_address set_release set_user
    set_group set_battery_script set_log_filename
entry-handle_option opt s c = ground arith

-- usage describes an option with an argument exactly if the string for getopt has a colon behind its
-- letter; and main takes an option, on any argument and configuration, exactly if usage describes it
-- and it is not -h, which ends the program.
pub usage-options :
    (opt : ℕ) (s : CString) (c : Configuration)
    → let es = described (first_options ++ last_options) in
      ((entry opt es ≡ some true) ↔ (wants_argument opt ≡ true))
      × ((handle_option opt (some s) c ≢ stop (exited 0)) ↔ ((entry opt es ≢ none) × (opt ≢ b'h')))
usage-options opt s c =
    subst
      (λ es.
        ((entry opt es ≡ some true) ↔ (wants_argument opt ≡ true))
        × ((handle_option opt (some s) c ≢ stop (exited 0))
            ↔ ((entry opt es ≢ none) × (opt ≢ b'h'))))
      (sym described-options) (entry-wants_argument opt, entry-handle_option opt s c)
