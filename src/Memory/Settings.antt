-- ===== src/Memory/Settings.antt =====
-- src/bdrcfg.c and the options of src/bdremoteng.c over memory: the configuration with its pointers,
-- each string in a block of its own. `Config` and `Main/Options` have the same code over values.
pub mod Fields
pub mod Agrees
pub mod Cleared
pub mod Setters
pub mod Accepted
use bdremote_ng.Prelude.{
  ℕ, ℤ, pos, Bool, true, false, ◌==◌, if◌then◌else◌, Option, none, some, List, [], ◌∷◌, Outcome, ok,
  stop, assertion, exited, ◌>>=◌,
}
use bdremote_ng.Text.{CString}
use bdremote_ng.Main.Options.{atoi_arg}
use bdremote_ng.Memory.{Ptr, null, Heap, Allocator, free_val, set_val}

-- the members of `configuration` that are pointers
pub data Field : Type 0 where
  release : Field
  interface_addr : Field
  remote_addr : Field
  user : Field
  group : Field
  log_filename : Field
  battery_script : Field

abbrev pub same_field : Field → Field → Bool
same_field release release = true
same_field interface_addr interface_addr = true
same_field remote_addr remote_addr = true
same_field user user = true
same_field group group = true
same_field log_filename log_filename = true
same_field battery_script battery_script = true
same_field _ _ = false

-- the others
pub record Plain : Type 0 where
  pub listen_port : ℤ
  pub disconnect_timeout : ℤ
  pub repeat_rate : ℤ
  pub repeat_delay : ℤ
  pub lirc_namespace : Bool
  pub event_out : Bool
  pub debug : Bool
  pub interface_addr_set : Bool
  pub detach : Bool
  pub log_filename_set : Bool
  pub battery_script_set : Bool

-- `configuration`
pub record Struct : Type 0 where
  pub plain : Plain
  pub string : Field → Ptr

abbrev pub update : (Field → Ptr) → Field → Ptr → Field → Ptr
update string f p g = if same_field g f then p else string g

-- the configuration that a function is called with, and the heap
abbrev pub State : Type 0
State = Struct × Heap

abbrev pub with_plain : (Plain → Plain) → State → State
with_plain change (c, h) = (record c { plain = change c.plain }, h)

-- FREEVAL on a member
unfoldable pub free_field : Field → State → Outcome State
free_field f (c, h) =
    free_val h (c.string f) >>= λ h1. ok (record c { string = update c.string f null }, h1)

unfoldable pub free_fields : List Field → State → Outcome State
free_fields [] m = ok m
free_fields (f ∷ fs) m = free_field f m >>= free_fields fs

abbrev pub defaults : Plain
defaults = record {
  listen_port = pos 8888;
  disconnect_timeout = pos 60;
  repeat_rate = pos 10;
  repeat_delay = pos 200;
  lirc_namespace = false;
  event_out = false;
  debug = false;
  interface_addr_set = false;
  detach = true;
  log_filename_set = false;
  battery_script_set = false;
}

-- the memory that main clears with memset
abbrev pub zeroed : Struct
zeroed = record {
  plain = record defaults {
    listen_port = pos 0;
    disconnect_timeout = pos 0;
    repeat_rate = pos 0;
    repeat_delay = pos 0;
    detach = false;
  };
  string = λ f. null;
}

-- the members that setDefaults frees, in its order
abbrev pub default_fields : List Field
default_fields =
    interface_addr ∷ remote_addr ∷ release ∷ user ∷ group ∷ log_filename ∷ battery_script ∷ []

-- setDefaults
unfoldable pub set_defaults : State → Outcome State
set_defaults m = free_fields default_fields m >>= λ (c, h). ok (record c { plain = defaults }, h)

-- destroyConfig
unfoldable pub destroy_config : State → Outcome State
destroy_config m =
    free_fields (remote_addr ∷ release ∷ user ∷ group ∷ log_filename ∷ battery_script ∷ []) m

module _ (a : Allocator) where
  -- SETVAL on a member, below the assert on the argument
  unfoldable pub set_field : Field → Option CString → State → Outcome State
  set_field f none m = stop assertion
  set_field f (some s) (c, h) =
      set_val a h (c.string f) s >>= λ (p, h1). ok (record c { string = update c.string f p }, h1)

  unfoldable pub set_remote_address : Option CString → State → Outcome State
  set_remote_address address m = set_field remote_addr address m

  unfoldable pub set_interface_address : Option CString → State → Outcome State
  set_interface_address address m = set_field interface_addr address m >>= λ m1.
      ok (with_plain (λ c. record c { interface_addr_set = true }) m1)

  unfoldable pub set_release : Option CString → State → Outcome State
  set_release suffix m = set_field release suffix m

  unfoldable pub set_user : Option CString → State → Outcome State
  set_user name m = set_field user name m

  unfoldable pub set_group : Option CString → State → Outcome State
  set_group name m = set_field group name m

  unfoldable pub set_battery_script : Option CString → State → Outcome State
  set_battery_script script m = set_field battery_script script m >>= λ m1.
      ok (with_plain (λ c. record c { battery_script_set = true }) m1)

  unfoldable pub set_log_filename : Option CString → State → Outcome State
  set_log_filename filename m = set_field log_filename filename m >>= λ m1.
      ok (with_plain (λ c. record c { log_filename_set = true }) m1)

  -- the switch over one option
  unfoldable pub handle_option : ℕ → Option CString → State → Outcome State
  handle_option opt optarg m =
      if opt == b'p'
      then atoi_arg optarg >>= (λ n. ok (with_plain (λ c. record c { listen_port = n }) m))
      else if opt == b't'
      then atoi_arg optarg >>= (λ n. ok (with_plain (λ c. record c { disconnect_timeout = n }) m))
      else if opt == b'a'
      then set_remote_address optarg m
      else if opt == b'b'
      then set_battery_script optarg m
      else if opt == b'i'
      then set_interface_address optarg m
      else if opt == b'r'
      then atoi_arg optarg >>= (λ n. ok (with_plain (λ c. record c { repeat_rate = n }) m))
      else if opt == b'e'
      then atoi_arg optarg >>= (λ n. ok (with_plain (λ c. record c { repeat_delay = n }) m))
      else if opt == b'd'
      then ok (with_plain (λ c. record c { debug = true }) m)
      else if opt == b'n'
      then ok (with_plain (λ c. record c { detach = false }) m)
      else if opt == b'u'
      then set_user optarg m
      else if opt == b'g'
      then set_group optarg m
      else if opt == b'R'
      then set_release optarg m
      else if opt == b'l'
      then ok (with_plain (λ c. record c { lirc_namespace = true }) m)
      else if opt == b'E'
      then ok (with_plain (λ c. record c { event_out = true }) m)
      else if opt == b'f'
      then set_log_filename optarg m
      else stop (exited 0)

  -- the while loop
  unfoldable pub handle_options : List (ℕ × Option CString) → State → Outcome State
  handle_options [] m = ok m
  handle_options (o ∷ os) m = handle_option o.0 o.1 m >>= handle_options os

  -- from the start of main to the test of the remote's address
  unfoldable pub configure : List (ℕ × Option CString) → Heap → Outcome State
  configure os h = do
    m ← set_defaults (zeroed, h)
    m1 ← handle_options os m
    if m1.0.string remote_addr == null then stop (exited 0) else ok m1
