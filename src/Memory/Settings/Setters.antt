-- ===== src/Memory/Settings/Setters.antt =====
-- Each setter of the configuration over memory, against the same over values.
use bdremote_ng.Prelude.{
  ℕ, ℤ, ◌≡◌, if◌then◌else◌, Option, none, some, ok, stop, assertion, true, ◌>>=◌, refl,
}
use bdremote_ng.Text.{CString}
use bdremote_ng.Config
use bdremote_ng.Config.{Configuration}
use bdremote_ng.Main.Options.{atoi_arg}
use bdremote_ng.Memory.{Ptr, Heap, Allocator}
use bdremote_ng.Memory.Settings.{
  Field, release, interface_addr, remote_addr, user, group, log_filename, battery_script,
  same_field, Plain, State, with_plain, set_field, set_remote_address, set_interface_address,
  set_release, set_user, set_group, set_battery_script, set_log_filename,
}
use bdremote_ng.Memory.Settings.Fields.{each_field}
use bdremote_ng.Memory.Settings.Agrees.{
  text_of, plain_of, Agrees, Agrees-with_plain, Alike, both, stopped, Alike-bind, set_field-Alike,
}

module _ {a : Allocator} {rest : Ptr → ℕ} {h0 : Heap} where
  -- An option that sets another member than a string.
  pub plain-Alike :
      (change : Plain → Plain) (c c' : Configuration) (m : State)
      → Agrees rest h0 c m
      → plain_of c' ≡ change (plain_of c)
      → ((f : Field) → text_of c' f ≡ text_of c f)
      → Alike a rest h0 (ok (with_plain change m)) (ok c')
  plain-Alike change c c' m v same texts = both (Agrees-with_plain change c c' m v same texts)

  pub number-Alike :
      (optarg : Option CString) (change : ℤ → Plain → Plain) (store : ℤ → Configuration)
      (c : Configuration) (m : State)
      → Agrees rest h0 c m
      → ((n : ℤ) → plain_of (store n) ≡ change n (plain_of c))
      → ((n : ℤ) (f : Field) → text_of (store n) f ≡ text_of c f)
      → Alike a rest h0
          (atoi_arg optarg >>= (λ n. ok (with_plain (change n) m)))
          (atoi_arg optarg >>= (λ n. ok (store n)))
  unfolding atoi_arg
  number-Alike none change store c m v same texts = stopped (λ e. cc)
  number-Alike (some s) change store c m v same texts =
      plain-Alike (change _) c (store _) m v (same _) (texts _)

  pub set_remote_address-Alike :
      (o : Option CString) (c : Configuration) (m : State)
      → Agrees rest h0 c m
      → Alike a rest h0 (set_remote_address a o m) (Config.set_remote_address c o)
  unfolding set_remote_address Config.set_remote_address
  set_remote_address-Alike o c m v =
      set_field-Alike remote_addr o _ c m v (λ s. refl)
        (λ s. each_field _ refl refl refl refl refl refl refl)

  pub set_release-Alike :
      (o : Option CString) (c : Configuration) (m : State)
      → Agrees rest h0 c m
      → Alike a rest h0 (set_release a o m) (Config.set_release c o)
  unfolding set_release Config.set_release
  set_release-Alike o c m v =
      set_field-Alike release o _ c m v (λ s. refl)
        (λ s. each_field _ refl refl refl refl refl refl refl)

  pub set_user-Alike :
      (o : Option CString) (c : Configuration) (m : State)
      → Agrees rest h0 c m
      → Alike a rest h0 (set_user a o m) (Config.set_user c o)
  unfolding set_user Config.set_user
  set_user-Alike o c m v =
      set_field-Alike user o _ c m v (λ s. refl)
        (λ s. each_field _ refl refl refl refl refl refl refl)

  pub set_group-Alike :
      (o : Option CString) (c : Configuration) (m : State)
      → Agrees rest h0 c m
      → Alike a rest h0 (set_group a o m) (Config.set_group c o)
  unfolding set_group Config.set_group
  set_group-Alike o c m v =
      set_field-Alike group o _ c m v (λ s. refl)
        (λ s. each_field _ refl refl refl refl refl refl refl)

  -- A setter that also sets the flag of its string.
  flagged-Alike :
      (f : Field) (o : Option CString) (store : CString → Configuration → Configuration)
      (flag : Configuration → Configuration) (change : Plain → Plain) (c : Configuration)
      (m : State)
      → Agrees rest h0 c m
      → ((s : CString) → plain_of (store s c) ≡ plain_of c)
      → ((s : CString) (g : Field)
          → text_of (store s c) g ≡ (if same_field g f then some s else text_of c g))
      → ((d : Configuration) → plain_of (flag d) ≡ change (plain_of d))
      → ((d : Configuration) (g : Field) → text_of (flag d) g ≡ text_of d g)
      → Alike a rest h0
          (set_field a f o m >>= (λ m1. ok (with_plain change m1)))
          (Config.with_string o (λ s. flag (store s c)))
  flagged-Alike f none store flag change c m v same texts flagged kept =
      Alike-bind {r' = stop assertion} (λ m1. ok (with_plain change m1)) (λ c1. ok (flag c1))
        (set_field-Alike f none (λ s. store s c) c m v same texts)
        (λ m1 c1 v1. plain-Alike change c1 (flag c1) m1 v1 (flagged c1) (kept c1))
  flagged-Alike f (some s) store flag change c m v same texts flagged kept =
      Alike-bind {r' = ok (store s c)} (λ m1. ok (with_plain change m1)) (λ c1. ok (flag c1))
        (set_field-Alike f (some s) (λ s. store s c) c m v same texts)
        (λ m1 c1 v1. plain-Alike change c1 (flag c1) m1 v1 (flagged c1) (kept c1))

  pub set_interface_address-Alike :
      (o : Option CString) (c : Configuration) (m : State)
      → Agrees rest h0 c m
      → Alike a rest h0 (set_interface_address a o m) (Config.set_interface_address c o)
  unfolding set_interface_address Config.set_interface_address
  set_interface_address-Alike o c m v =
      flagged-Alike interface_addr o (λ s c. record c { interface_addr = some s })
        (λ c. record c { interface_addr_set = true }) (λ p. record p { interface_addr_set = true })
        c m v (λ s. refl) (λ s. each_field _ refl refl refl refl refl refl refl) (λ d. refl)
        (λ d. each_field _ refl refl refl refl refl refl refl)

  pub set_battery_script-Alike :
      (o : Option CString) (c : Configuration) (m : State)
      → Agrees rest h0 c m
      → Alike a rest h0 (set_battery_script a o m) (Config.set_battery_script c o)
  unfolding set_battery_script Config.set_battery_script
  set_battery_script-Alike o c m v =
      flagged-Alike battery_script o (λ s c. record c { battery_script = some s })
        (λ c. record c { battery_script_set = true }) (λ p. record p { battery_script_set = true })
        c m v (λ s. refl) (λ s. each_field _ refl refl refl refl refl refl refl) (λ d. refl)
        (λ d. each_field _ refl refl refl refl refl refl refl)

  pub set_log_filename-Alike :
      (o : Option CString) (c : Configuration) (m : State)
      → Agrees rest h0 c m
      → Alike a rest h0 (set_log_filename a o m) (Config.set_log_filename c o)
  unfolding set_log_filename Config.set_log_filename
  set_log_filename-Alike o c m v =
      flagged-Alike log_filename o (λ s c. record c { log_filename = some s })
        (λ c. record c { log_filename_set = true }) (λ p. record p { log_filename_set = true }) c m
        v (λ s. refl) (λ s. each_field _ refl refl refl refl refl refl refl) (λ d. refl)
        (λ d. each_field _ refl refl refl refl refl refl refl)
