-- ===== src/Examples/Program.antt =====
-- `bdremoteng -a 00:11 -u nobody -g nogroup -f log` on a machine with one adapter.
use bdremote_ng.Prelude.{
  ℕ, ◌+◌, ◌≡◌, refl, pos, minus_one, Option, some, List, [], ◌∷◌, replicate, ok,
}
use bdremote_ng.Text.{CString, codes}
use bdremote_ng.Sys.{Trace}
use bdremote_ng.Sys.Descriptors.{opened, closed}
use bdremote_ng.Config.{
  set_defaults, set_remote_address, set_user, set_group, set_log_filename, user_and_group_set,
}
use bdremote_ng.Logging.{set_log_file, standard_output}
use bdremote_ng.Privileges.{change_uid_and_gid}
use bdremote_ng.Capture.{init_capture_data}
use bdremote_ng.Capture.Bluetooth.{
  init_capture_loop, own_address, bt_device_exists, open_if_found, look_up, find_device, examine,
  open_sockets, l2cap_listen, bind_and_listen, capture_loop,
}
use bdremote_ng.Lirc.{init_lirc_data, destroy_lirc_data}
use bdremote_ng.Lirc.Server.{Round, connects, lirc_drops, lirc_server, create_listener, shut}
use bdremote_ng.Main.Options.{configure, handle_options, handle_option}
use bdremote_ng.Main.Program.{
  Host, Variables, going, set_variables, prepare, with_variables, with_sockets, detach,
  drop_privileges, change_identity, Final, success, main_program, after_prepare, with_log,
  run_threads, clean_up,
}
use bdremote_ng.Main.Program.Identity.{ChangedBy, prepare-ChangedBy}
use bdremote_ng.Main.Program.Clean.{daemon-closes}
use bdremote_ng.Lirc.Clients.{clients}
use bdremote_ng.Examples.{world}
use bdremote_ng.Examples.Bluetooth.{bluez, visitors}

abbrev ids : CString → Option ℕ
ids name = some 1000

abbrev host : Host
host = record {
  bluez = bluez;
  getpwnam = ids;
  getgrnam = ids;
  device_size = 1116;
  memory = replicate 16 (pos 0);
}

abbrev arguments : List (ℕ × Option CString)
arguments =
    (b'a', some (codes "00:11"))
    ∷ (b'u', some (codes "nobody"))
    ∷ (b'g', some (codes "nogroup"))
    ∷ (b'f', some (codes "log"))
    ∷ []

-- main up to the log file
prepared :
    (v : Variables) × (v' : Variables) × (t' : Trace) × (set_variables host arguments ≡ ok v)
    × (prepare host world arguments [] ≡ (going v', t'))
    × (v.config.user ≡ some (codes "nobody"))
    × (v.config.group ≡ some (codes "nogroup"))
unfolding set_variables prepare with_variables configure handle_options handle_option
    set_remote_address set_user set_group set_log_filename set_defaults init_capture_data
    init_lirc_data detach with_sockets init_capture_loop own_address bt_device_exists open_if_found
    look_up find_device examine open_sockets l2cap_listen bind_and_listen drop_privileges
    user_and_group_set change_identity change_uid_and_gid
prepared = (_, _, _, refl, refl, refl, refl)

prepare-ChangedBy_example :
    (t1 : Trace) × (t2 : Trace) × (init_capture_loop bluez world prepared.0.cdata t1
      ≡ ok (pos 0, prepared.1.cdata, t2))
    × ChangedBy host (codes "nobody") (codes "nogroup") t2 prepared.2
prepare-ChangedBy_example =
    let (v, v', t', set, e, u, g) = prepared in prepare-ChangedBy host world arguments [] set e u g

-- a client that connects and is dropped, and another one
abbrev visits : List Round
visits = connects ∷ lirc_drops (pos 7) ∷ connects ∷ []

finished :
    (v : Variables) × (t1 : Trace) × (z : Final) × (prepare host world arguments [] ≡ (going v, t1))
    × (main_program host world arguments visits [] ≡ success z)
unfolding set_variables prepare with_variables configure handle_options handle_option
    set_remote_address set_user set_group set_log_filename set_defaults init_capture_data
    init_lirc_data detach with_sockets init_capture_loop own_address bt_device_exists open_if_found
    look_up find_device examine open_sockets l2cap_listen bind_and_listen drop_privileges
    user_and_group_set change_identity change_uid_and_gid main_program after_prepare with_log
    set_log_file run_threads clean_up destroy_lirc_data lirc_server create_listener shut
finished = (_, _, _, refl, refl)

daemon-closes_example :
    let z = finished.2 in
    let t2 = (capture_loop bluez world finished.0.cdata visitors []).1 in
    (clients z.variables.ldata ≡ [])
    × (z.event_out_fd ≡ minus_one)
    × (z.stream ≡ standard_output)
    × (opened (pos 7) z.trace + opened (pos 7) t2 ≡ closed (pos 7) z.trace + closed (pos 7) t2)
daemon-closes_example =
    daemon-closes host world world arguments visits visitors 7 refl finished.3 finished.4
