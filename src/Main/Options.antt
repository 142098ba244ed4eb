-- ===== src/Main/Options.antt =====
-- src/bdremoteng.c, the part of main that reads the command line. getopt is the C library's: the
-- list holds what its calls return, an option's character with `optarg`, up to the -1 at the end.
pub mod Accepted
use bdremote_ng.Prelude.{
  ℕ, zero, suc, ◌+◌, ◌-◌, ◌*◌, ℤ, pos, negsuc, Bool, true, false, Option, none, some, List, [], ◌∷◌,
  Outcome, ok, stop, exited, out_of_bounds, ◌>>=◌, ◌==◌, ◌&&◌, ◌||◌, leb, ltb, if◌then◌else◌,
}
use bdremote_ng.Text.{CString}
use bdremote_ng.Config.{
  Configuration, zeroed, set_defaults, set_remote_address, set_interface_address, set_release,
  set_user, set_group, set_battery_script, set_log_filename,
}

-- `atoi`, for numbers that an int holds: blanks, a sign, and digits up to the first other byte.
atoi_digits : CString → ℕ → ℕ
atoi_digits [] n = n
atoi_digits (c ∷ s) n =
    let rest = atoi_digits s (n * 10 + (c - b'0')) in if leb b'0' c && leb c b'9' then rest else n

negate : ℕ → ℤ
negate zero = pos 0
negate (suc n) = negsuc n

atoi_sign : CString → ℤ
unfolding negate atoi_digits
atoi_sign [] = pos 0
atoi_sign (c ∷ s) =
    if c == b'-'
    then negate (atoi_digits s 0)
    else if c == b'+'
    then pos (atoi_digits s 0)
    else pos (atoi_digits (c ∷ s) 0)

unfoldable pub atoi : CString → ℤ
unfolding atoi_sign
atoi [] = pos 0
atoi (c ∷ s) =
    let rest = atoi s in if c == 32 || (leb 9 c && leb c 13) then rest else atoi_sign (c ∷ s)

-- `atoi(optarg)`: optarg is not NULL for an option that wants an argument.
unfoldable pub atoi_arg : Option CString → Outcome ℤ
atoi_arg none = stop out_of_bounds
atoi_arg (some s) = ok (atoi s)

-- The switch over one option. `usage` only prints.
unfoldable pub handle_option : ℕ → Option CString → Configuration → Outcome Configuration
handle_option opt optarg c =
    if opt == b'p'
    then atoi_arg optarg >>= (λ n. ok (record c { listen_port = n }))
    else if opt == b't'
    then atoi_arg optarg >>= (λ n. ok (record c { disconnect_timeout = n }))
    else if opt == b'a'
    then set_remote_address c optarg
    else if opt == b'b'
    then set_battery_script c optarg
    else if opt == b'i'
    then set_interface_address c optarg
    else if opt == b'r'
    then atoi_arg optarg >>= (λ n. ok (record c { repeat_rate = n }))
    else if opt == b'e'
    then atoi_arg optarg >>= (λ n. ok (record c { repeat_delay = n }))
    else if opt == b'd'
    then ok (record c { debug = true })
    else if opt == b'n'
    then ok (record c { detach = false })
    else if opt == b'u'
    then set_user c optarg
    else if opt == b'g'
    then set_group c optarg
    else if opt == b'R'
    then set_release c optarg
    else if opt == b'l'
    then ok (record c { lirc_namespace = true })
    else if opt == b'E'
    then ok (record c { event_out = true })
    else if opt == b'f'
    then set_log_filename c optarg
    else stop (exited 0)

-- the while loop
unfoldable pub handle_options : List (ℕ × Option CString) → Configuration → Outcome Configuration
handle_options [] c = ok c
handle_options (o ∷ os) c = handle_option o.0 o.1 c >>= handle_options os

-- from the start of main to the test of the remote's address
unfoldable pub configure : List (ℕ × Option CString) → Outcome Configuration
configure os = do
  c ← handle_options os (set_defaults zeroed)
  elim c.remote_addr [ none ↦ stop (exited 0) | some address ↦ ok c ]
