-- ===== src/Memory/Settings/Accepted.antt =====
-- The command line over memory.
use bdremote_ng.Prelude.{
  ℕ, ◌≡◌, ◌==◌, if◌then◌else◌, Option, none, some, List, [], ◌∷◌, ok, stop, exited, true, false,
  refl, arith,
}
use bdremote_ng.Text.{CString}
use bdremote_ng.Config
use bdremote_ng.Config.{Configuration}
use bdremote_ng.Main.Options
use bdremote_ng.Main.Options.{atoi_arg}
use bdremote_ng.Memory.{Ptr, null, Heap, Allocator}
use bdremote_ng.Memory.Blocks.{live, Points}
use bdremote_ng.Memory.Settings.{
  remote_addr, State, zeroed, handle_option, handle_options, configure,
}
use bdremote_ng.Memory.Settings.Fields.{each_field}
use bdremote_ng.Memory.Settings.Agrees.{Agrees, Alike, both, stopped, Alike-bind, Alike-if}
use bdremote_ng.Memory.Settings.Cleared.{set_defaults-Alike, zeroed-Agrees}
use bdremote_ng.Memory.Settings.Setters.{
  plain-Alike, number-Alike, set_remote_address-Alike, set_release-Alike, set_user-Alike,
  set_group-Alike, set_interface_address-Alike, set_battery_script-Alike, set_log_filename-Alike,
}

module _ {a : Allocator} {rest : Ptr → ℕ} {h0 : Heap} where
  pub handle_option-Alike :
      (opt : ℕ) (optarg : Option CString) (c : Configuration) (m : State)
      → Agrees rest h0 c m
      → Alike a rest h0 (handle_option a opt optarg m) (Options.handle_option opt optarg c)
  unfolding handle_option Options.handle_option
  handle_option-Alike opt optarg c m v =
      Alike-if (opt == b'p')
        (number-Alike optarg (λ n p. record p { listen_port = n })
          (λ n. record c { listen_port = n }) c m v (λ n. refl)
          (λ n. each_field _ refl refl refl refl refl refl refl))
        (Alike-if (opt == b't')
          (number-Alike optarg (λ n p. record p { disconnect_timeout = n })
            (λ n. record c { disconnect_timeout = n }) c m v (λ n. refl)
            (λ n. each_field _ refl refl refl refl refl refl refl))
          (Alike-if (opt == b'a') (set_remote_address-Alike optarg c m v) (
            Alike-if (opt == b'b') (set_battery_script-Alike optarg c m v) (
              Alike-if (opt == b'i') (set_interface_address-Alike optarg c m v) (
                Alike-if (opt == b'r')
                  (number-Alike optarg (λ n p. record p { repeat_rate = n })
                    (λ n. record c { repeat_rate = n }) c m v (λ n. refl)
                    (λ n. each_field _ refl refl refl refl refl refl refl))
                  (Alike-if (opt == b'e')
                    (number-Alike optarg (λ n p. record p { repeat_delay = n })
                      (λ n. record c { repeat_delay = n }) c m v (λ n. refl)
                      (λ n. each_field _ refl refl refl refl refl refl refl))
                    (Alike-if (opt == b'd')
                      (plain-Alike (λ p. record p { debug = true }) c (record c { debug = true }) m
                        v refl (each_field _ refl refl refl refl refl refl refl))
                      (Alike-if (opt == b'n')
                        (plain-Alike (λ p. record p { detach = false }) c
                          (record c { detach = false }) m v refl
                          (each_field _ refl refl refl refl refl refl refl))
                        (Alike-if (opt == b'u') (set_user-Alike optarg c m v) (
                          Alike-if (opt == b'g') (set_group-Alike optarg c m v) (
                            Alike-if (opt == b'R') (set_release-Alike optarg c m v) (
                              Alike-if (opt == b'l')
                                (plain-Alike (λ p. record p { lirc_namespace = true }) c
                                  (record c { lirc_namespace = true }) m v refl
                                  (each_field _ refl refl refl refl refl refl refl))
                                (Alike-if (opt == b'E')
                                  (plain-Alike (λ p. record p { event_out = true }) c
                                    (record c { event_out = true }) m v refl
                                    (each_field _ refl refl refl refl refl refl refl))
                                  (Alike-if (opt == b'f') (set_log_filename-Alike optarg c m v)
                                    ((stopped (λ e. cc)))))))))))))))))

  handle_options-Alike :
      (os : List (ℕ × Option CString)) (c : Configuration) (m : State)
      → Agrees rest h0 c m
      → Alike a rest h0 (handle_options a os m) (Options.handle_options os c)
  unfolding handle_options Options.handle_options
  handle_options-Alike [] c m v = both v
  handle_options-Alike (o ∷ os) c m v =
      Alike-bind (handle_options a os) (Options.handle_options os)
        (handle_option-Alike o.0 o.1 c m v) (λ m1 c1. handle_options-Alike os c1 m1)

  -- the test of the remote's address
  has_address-Alike :
      (c : Configuration) (m : State)
      → Agrees rest h0 c m
      → Alike a rest h0
          (if m.0.string remote_addr == null then stop (exited 0) else ok m)
          (elim c.remote_addr [ none ↦ stop (exited 0) | some address ↦ ok c ])
  has_address-Alike c m v = go (m.0.string remote_addr) c.remote_addr (v.strings remote_addr)
    where
      go :
          (p : Ptr) (o : Option CString)
          → Points m.1 p o
          → Alike a rest h0
              (if p == null then stop (exited 0) else ok m)
              (elim o [ none ↦ stop (exited 0) | some address ↦ ok c ])
      go p none e = rw e (stopped (λ e. cc))
      go p (some s) (ne, e) = let there : (p == null) ≡ false = ground arith in rw there (both v)

-- The command line over memory ends as it does over values, unless malloc has no memory: with the
-- same failed assert or exit, or with a configuration whose members are those of the value, each
-- string in a block of its own, and no other block is taken or changed, however often an option is
-- given. No block is freed twice, and nothing is read or freed that is no block.
pub configure-Alike :
    (a : Allocator) (os : List (ℕ × Option CString)) (h : Heap)
    → Alike a (live h) h (configure a os h) (Options.configure os)
unfolding configure Options.configure
configure-Alike a os h =
    Alike-bind {r' = ok (Config.set_defaults Config.zeroed)} _ _
      (set_defaults-Alike Config.zeroed (zeroed, h) (zeroed-Agrees h))
      (λ m c v. Alike-bind _ _ (handle_options-Alike os c m v) (λ m1 c1. has_address-Alike c1 m1))
