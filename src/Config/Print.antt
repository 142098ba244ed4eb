-- ===== src/Config/Print.antt =====
-- printConfig of src/bdrcfg.c: the text that it writes. A `%s` must not be handed NULL.
pub mod Total
use bdremote_ng.Prelude.{
  ℤ, pos, ℕ, Bool, true, false, String, Option, none, some, ◌++◌, [], if◌then◌else◌, Outcome, ok,
  stop, bad_memory, ◌>>=◌,
}
use bdremote_ng.Text.{CString, codes, decimal}
use bdremote_ng.Logging.Masks.{
  Source, lirc_thr, lirc_sock, lirc_cb, bt_if, bt_impl, queue, spare, main, module_mask, mask_check,
}
use bdremote_ng.Config.{Configuration}

-- `%d` and `%u` of an integer that is 0 or 1
abbrev bit : Bool → CString
bit b = decimal (pos (if b then 1 else 0))

-- a text with one conversion in it
abbrev with_value : String → CString → String → CString
with_value before value after = codes before ++ (value ++ codes after)

-- `%s`
string : Option CString → Outcome CString
string none = stop bad_memory
string (some s) = ok s

print_numbers : (enable_repeat : Bool) → Configuration → CString
print_numbers enable_repeat c =
    codes "Configuration:\n"
    ++ (with_value " - listen port : " (decimal c.listen_port) ".\n"
        ++ (with_value " - timeout     : " (decimal c.disconnect_timeout) " second(s).\n"
            ++ (if enable_repeat
                then with_value " - repeat rate : " (decimal c.repeat_rate) " per secound.\n"
                  ++ with_value " - repeat delay: " (decimal c.repeat_delay) " ms.\n"
                else codes " - repeat rate : disabled.\n" ++ codes " - repeat delay: disabled.\n")))

-- a string that may be NULL
print_optional : String → Option CString → CString
print_optional label none = with_value label (codes "not set") ".\n"
print_optional label (some s) = with_value label s ".\n"

print_flags : Configuration → CString
print_flags c =
    with_value " - LIRC names  : " (bit c.lirc_namespace) ".\n"
    ++ (with_value " - event output: " (bit c.event_out) ".\n"
        ++ with_value " - debug       : " (bit c.debug) ".\n")

print_masks : (log_mask : ℕ) → CString
print_masks log_mask =
    let check = λ (m : Source). bit (mask_check log_mask (module_mask m)) in
    with_value "                 LIRC thread(" (check lirc_thr) ")"
    ++ (with_value " sock(" (check lirc_sock) ")"
        ++ (with_value " callback(" (check lirc_cb) "),\n"
            ++ (with_value "                 bluetooth interface(" (check bt_if) ")"
                ++ (with_value " implementation(" (check bt_impl) "),\n"
                    ++ (with_value "                 queue(" (check queue) "),\n"
                        ++ (with_value "                 spare(" (check spare) "),\n"
                            ++ with_value "                 main(" (check main) ").\n"))))))

-- a string that is used under its flag
print_flagged : Bool → String → Option CString → String → CString → Outcome CString
unfolding string
print_flagged flag before o after otherwise =
    if flag then string o >>= (λ s. ok (with_value before s after)) else ok otherwise

print_interface : Configuration → Outcome CString
unfolding print_flagged
print_interface c =
    print_flagged c.interface_addr_set " - iface addr  : " c.interface_addr ".\n"
      (codes " - iface addr  : ANY.\n")

print_log : Configuration → Outcome CString
unfolding print_flagged
print_log c =
    print_flagged c.log_filename_set " - log         : '" c.log_filename "'.\n"
      (codes " - log         : stdout.\n")

print_script : Configuration → Outcome CString
unfolding print_flagged
print_script c =
    print_flagged c.battery_script_set " - script    : '" c.battery_script "'.\n"
      (codes " - script    : not set.\n")

-- the whole text, from its parts that are strings under a flag
print_all :
    (enable_repeat : Bool) (log_mask : ℕ)
    → Configuration
    → (interface remote log script : CString) → CString
unfolding print_numbers print_optional print_flags print_masks
print_all enable_repeat log_mask c interface remote log script =
    print_numbers enable_repeat c
    ++ (print_optional " - release     : " c.release
        ++ (print_flags c
            ++ ((if c.debug then print_masks log_mask else [])
                ++ (interface
                    ++ (with_value " - remote addr : " remote ".\n"
                        ++ (with_value " - detach      : " (bit c.detach) ".\n"
                            ++ (print_optional " - user        : " c.user
                                ++ (print_optional " - group       : " c.group
                                    ++ (log ++ (codes " - battery\n" ++ script))))))))))

-- printConfig
unfoldable pub print_config :
    (enable_repeat : Bool) (log_mask : ℕ) → Configuration → Outcome CString
unfolding print_interface print_log print_script print_all string
print_config enable_repeat log_mask c = do
  interface ← print_interface c
  remote ← string c.remote_addr
  log ← print_log c
  script ← print_script c
  ok (print_all enable_repeat log_mask c interface remote log script)
