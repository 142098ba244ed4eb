-- ===== src/Main/Options/Accepted.antt =====
-- What holds of a configuration that main goes on with.
use bdremote_ng.Prelude.{
  ℕ, Bool, true, Option, none, some, ◌≡◌, ◌≢◌, refl, arith, Outcome, ok, stop, List, [], ◌∷◌, ◌>>=◌,
  ◌==◌, ◌||◌, subst, exited, All, ok-injective, >>=-eq-ok,
}
use bdremote_ng.Text.{CString}
use bdremote_ng.Config.{
  Configuration, zeroed, set_defaults, set_remote_address, set_interface_address, set_release,
  set_user, set_group, set_battery_script, set_log_filename,
}
use bdremote_ng.Config.Flags.{IsConsistent, set_defaults-IsConsistent}
use bdremote_ng.Main.Options.{atoi_arg, handle_option, handle_options, configure}

-- An option that wants an argument comes with one, as getopt promises for a letter with a colon in
-- "+p:t:a:b:i:r:e:R:u:g:f:ndhlE".
abbrev pub wants_argument : ℕ → Bool
wants_argument opt =
    opt == b'p'
    || opt == b't'
    || opt == b'a'
    || opt == b'b'
    || opt == b'i'
    || opt == b'r'
    || opt == b'e'
    || opt == b'R'
    || opt == b'u'
    || opt == b'g'
    || opt == b'f'

abbrev pub FromGetopt : List (ℕ × Option CString) → Type 0
FromGetopt = All (λ o. wants_argument o.0 ≡ true → o.1 ≢ none)

abbrev pub IsOkOrExit : Outcome Configuration → Type 0
IsOkOrExit (ok c) = Unit
IsOkOrExit (stop (exited n)) = n ≡ 0
IsOkOrExit (stop _) = ⊥

handle_option-IsConsistent :
    (opt : ℕ) (optarg : Option CString) (c : Configuration) {c' : Configuration}
    → IsConsistent c
    → handle_option opt optarg c ≡ ok c'
    → IsConsistent c'
unfolding handle_option set_remote_address set_interface_address set_release set_user set_group
    set_battery_script set_log_filename
handle_option-IsConsistent opt optarg c v e = ground arith

handle_options-IsConsistent :
    (os : List (ℕ × Option CString)) (c : Configuration) {c' : Configuration}
    → IsConsistent c
    → handle_options os c ≡ ok c'
    → IsConsistent c'
unfolding handle_options
handle_options-IsConsistent [] c v e = subst IsConsistent (ok-injective e) v
handle_options-IsConsistent (o ∷ os) c v e =
    let (c1, e1, e2) = >>=-eq-ok (handle_option o.0 o.1 c) (handle_options os) e in
    handle_options-IsConsistent os c1 (handle_option-IsConsistent o.0 o.1 c v e1) e2

-- A configuration that main goes on with has the address of the remote, and each of its three
-- `*_set` flags is set exactly when the string that it speaks for is there.
pub configure-IsConsistent :
    (os : List (ℕ × Option CString)) {c : Configuration}
    → configure os ≡ ok c
    → IsConsistent c × (c.remote_addr ≢ none)
unfolding configure
configure-IsConsistent os {c} e =
    let (c1, e1, e2) =
      >>=-eq-ok (handle_options os (set_defaults zeroed))
        (λ c. elim c.remote_addr [ none ↦ stop (exited 0) | some address ↦ ok c ]) e in
    let same : c1 ≡ c = ground arith in
    (
      subst IsConsistent same
          (handle_options-IsConsistent os _ (set_defaults-IsConsistent zeroed) e1),
      ground arith,
    )

handle_option-IsOkOrExit :
    (opt : ℕ) (optarg : Option CString) (c : Configuration)
    → (wants_argument opt ≡ true → optarg ≢ none)
    → IsOkOrExit (handle_option opt optarg c)
unfolding handle_option set_remote_address set_interface_address set_release set_user set_group
    set_battery_script set_log_filename atoi_arg
handle_option-IsOkOrExit opt none c h = ground arith
handle_option-IsOkOrExit opt (some s) c h = ground arith

bind-IsOkOrExit :
    (m : Outcome Configuration) (f : Configuration → Outcome Configuration)
    → IsOkOrExit m
    → ((c : Configuration) → IsOkOrExit (f c))
    → IsOkOrExit (m >>= f)
bind-IsOkOrExit (ok c) f h k = k c
bind-IsOkOrExit (stop fault) f h k = h

handle_options-IsOkOrExit :
    (os : List (ℕ × Option CString)) (c : Configuration)
    → FromGetopt os
    → IsOkOrExit (handle_options os c)
unfolding handle_options
handle_options-IsOkOrExit [] c h = tt
handle_options-IsOkOrExit (o ∷ os) c h =
    bind-IsOkOrExit (handle_option o.0 o.1 c) (handle_options os)
      (handle_option-IsOkOrExit o.0 o.1 c h.0) (λ c1. handle_options-IsOkOrExit os c1 h.1)

has_address-IsOkOrExit :
    (c : Configuration) (a : Option CString)
    → IsOkOrExit (elim a [ none ↦ stop (exited 0) | some address ↦ ok c ])
has_address-IsOkOrExit c none = refl
has_address-IsOkOrExit c (some a) = tt

-- On what getopt returns, with an argument for each option that wants one, reading the command line
-- ends with a configuration or with exit(0): no assert fails and no missing argument is read.
pub configure-IsOkOrExit :
    (os : List (ℕ × Option CString)) → FromGetopt os → IsOkOrExit (configure os)
unfolding configure
configure-IsOkOrExit os h =
    bind-IsOkOrExit (handle_options os (set_defaults zeroed)) _ (handle_options-IsOkOrExit os _ h)
      (λ c. has_address-IsOkOrExit c c.remote_addr)
