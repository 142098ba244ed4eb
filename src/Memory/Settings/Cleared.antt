-- ===== src/Memory/Settings/Cleared.antt =====
-- FREEVAL on the members: setDefaults and destroyConfig.
use bdremote_ng.Prelude.{
  ℕ, ◌+◌, ◌≡◌, if◌then◌else◌, none, List, [], ◌∷◌, ok, pos, true, false, arith, refl,
}
use bdremote_ng.Config
use bdremote_ng.Config.{Configuration}
use bdremote_ng.Memory.{Ptr, Heap, Allocator}
use bdremote_ng.Memory.Blocks.{live, free_val-Owned}
use bdremote_ng.Memory.Settings.{
  Field, release, interface_addr, remote_addr, user, group, log_filename, battery_script,
  same_field, zeroed, defaults, default_fields, State, with_plain, free_field, free_fields,
  set_defaults, destroy_config,
}
use bdremote_ng.Memory.Settings.Fields.{others, each_field}
use bdremote_ng.Memory.Settings.Agrees.{
  text_of, plain_of, Agrees, Agrees-update, Agrees-with_plain, member-Owned, Alike, both,
  Alike-bind,
}

abbrev clear : Field → Configuration → Configuration
clear release c = record c { release = none }
clear interface_addr c = record c { interface_addr = none }
clear remote_addr c = record c { remote_addr = none }
clear user c = record c { user = none }
clear group c = record c { group = none }
clear log_filename c = record c { log_filename = none }
clear battery_script c = record c { battery_script = none }

abbrev clear_all : List Field → Configuration → Configuration
clear_all [] c = c
clear_all (f ∷ fs) c = clear_all fs (clear f c)

-- setDefaults, without the strings
abbrev with_defaults : Configuration → Configuration
with_defaults c = record c {
  listen_port = pos 8888;
  disconnect_timeout = pos 60;
  repeat_rate = pos 10;
  repeat_delay = pos 200;
  debug = false;
  interface_addr_set = false;
  detach = true;
  lirc_namespace = false;
  event_out = false;
  log_filename_set = false;
  battery_script_set = false;
}

text_of-clear :
    (f g : Field) (c : Configuration)
    → text_of (clear f c) g ≡ (if same_field g f then none else text_of c g)
text_of-clear f g c =
    each_field
      (λ f. (g : Field) → text_of (clear f c) g ≡ (if same_field g f then none else text_of c g))
      (each_field _ refl refl refl refl refl refl refl)
      (each_field _ refl refl refl refl refl refl refl)
      (each_field _ refl refl refl refl refl refl refl)
      (each_field _ refl refl refl refl refl refl refl)
      (each_field _ refl refl refl refl refl refl refl)
      (each_field _ refl refl refl refl refl refl refl)
      (each_field _ refl refl refl refl refl refl refl) f g

plain_of-clear : (f : Field) (c : Configuration) → plain_of (clear f c) ≡ plain_of c
plain_of-clear f c =
    each_field (λ f. plain_of (clear f c) ≡ plain_of c) refl refl refl refl refl refl refl f

module _ {a : Allocator} {rest : Ptr → ℕ} {h0 : Heap} where
  free_field-Alike :
      (f : Field) (c : Configuration) (m : State)
      → Agrees rest h0 c m
      → Alike a rest h0 (free_field f m) (ok (clear f c))
  unfolding free_field
  free_field-Alike f c (s, h) v =
      let (h', e, own, kept) =
        free_val-Owned h (s.string f) (λ q. others f s.string q + rest q)
          (member-Owned f c s h v) in
      rw e (
        both (
          Agrees-update f none c (clear f c) s h h' 0 v (plain_of-clear f c)
            (λ g. text_of-clear f g c) refl (λ q. omega (arith, own q)) kept))

  free_fields-Alike :
      (fs : List Field) (c : Configuration) (m : State)
      → Agrees rest h0 c m
      → Alike a rest h0 (free_fields fs m) (ok (clear_all fs c))
  unfolding free_fields
  free_fields-Alike [] c m v = both v
  free_fields-Alike (f ∷ fs) c m v =
      Alike-bind {r' = ok (clear f c)} (free_fields fs) (λ c. ok (clear_all fs c))
        (free_field-Alike f c m v) (λ m1 c1. free_fields-Alike fs c1 m1)

  pub set_defaults-Alike :
      (c : Configuration) (m : State)
      → Agrees rest h0 c m
      → Alike a rest h0 (set_defaults m) (ok (Config.set_defaults c))
  unfolding set_defaults Config.set_defaults
  set_defaults-Alike c m v =
      Alike-bind {r' = ok (clear_all default_fields c)} (λ m1. ok (with_plain (λ p. defaults) m1))
        (λ c1. ok (with_defaults c1)) (free_fields-Alike _ c m v)
        (λ m1 c1 v1. both (
          Agrees-with_plain (λ p. defaults) c1 (with_defaults c1) m1 v1 refl
            (each_field _ refl refl refl refl refl refl refl)))

  pub destroy_config-Alike :
      (c : Configuration) (m : State)
      → Agrees rest h0 c m
      → Alike a rest h0 (destroy_config m) (ok (Config.destroy_config c))
  unfolding destroy_config Config.destroy_config
  destroy_config-Alike c m v = free_fields-Alike _ c m v

-- the members before setDefaults
pub zeroed-Agrees : (h : Heap) → Agrees (live h) h Config.zeroed (zeroed, h)
zeroed-Agrees h = record {
  plain = refl;
  strings = each_field _ refl refl refl refl refl refl refl;
  owned = λ q. omega arith;
  kept = λ q l. refl;
}
