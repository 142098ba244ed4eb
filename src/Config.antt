-- ===== src/Config.antt =====
-- src/bdrcfg.h and src/bdrcfg.c: the configuration. A string field is `none` if it is NULL. The
-- setters copy their argument with SETVAL, which first frees the old copy; FREEVAL sets the field to
-- NULL. The integer fields that the program only sets to 0 and 1 are Booleans.
pub mod Flags
pub mod Print
use bdremote_ng.Prelude.{
  ℕ, ℤ, pos, Bool, true, false, Option, none, some, Outcome, ok, stop, assertion, if◌then◌else◌,
}
use bdremote_ng.Text.{CString}

-- `configuration`
pub record Configuration : Type 0 where
  pub listen_port : ℤ
  pub disconnect_timeout : ℤ
  pub repeat_rate : ℤ
  pub repeat_delay : ℤ
  pub release : Option CString
  pub lirc_namespace : Bool
  pub event_out : Bool
  pub debug : Bool
  pub interface_addr_set : Bool
  pub interface_addr : Option CString
  pub remote_addr : Option CString
  pub detach : Bool
  pub user : Option CString
  pub group : Option CString
  pub log_filename_set : Bool
  pub log_filename : Option CString
  pub battery_script_set : Bool
  pub battery_script : Option CString

-- the memory that main clears with memset
abbrev pub zeroed : Configuration
zeroed = record {
  listen_port = pos 0;
  disconnect_timeout = pos 0;
  repeat_rate = pos 0;
  repeat_delay = pos 0;
  release = none;
  lirc_namespace = false;
  event_out = false;
  debug = false;
  interface_addr_set = false;
  interface_addr = none;
  remote_addr = none;
  detach = false;
  user = none;
  group = none;
  log_filename_set = false;
  log_filename = none;
  battery_script_set = false;
  battery_script = none;
}

unfoldable pub set_defaults : Configuration → Configuration
set_defaults c = record c {
  listen_port = pos 8888;
  disconnect_timeout = pos 60;
  repeat_rate = pos 10;
  repeat_delay = pos 200;
  debug = false;
  interface_addr_set = false;
  interface_addr = none;
  remote_addr = none;
  detach = true;
  release = none;
  lirc_namespace = false;
  event_out = false;
  user = none;
  group = none;
  log_filename_set = false;
  log_filename = none;
  battery_script_set = false;
  battery_script = none;
}

-- `assert(s != NULL)` before the rest
abbrev pub with_string : Option CString → (CString → Configuration) → Outcome Configuration
with_string none f = stop assertion
with_string (some s) f = ok (f s)

unfoldable pub set_remote_address : Configuration → Option CString → Outcome Configuration
set_remote_address c address = with_string address λ s. record c { remote_addr = some s }

unfoldable pub set_interface_address : Configuration → Option CString → Outcome Configuration
set_interface_address c address =
    with_string address λ s. record c { interface_addr = some s; interface_addr_set = true }

unfoldable pub set_release : Configuration → Option CString → Outcome Configuration
set_release c release = with_string release λ s. record c { release = some s }

unfoldable pub set_user : Configuration → Option CString → Outcome Configuration
set_user c user = with_string user λ s. record c { user = some s }

unfoldable pub set_group : Configuration → Option CString → Outcome Configuration
set_group c group = with_string group λ s. record c { group = some s }

unfoldable pub set_battery_script : Configuration → Option CString → Outcome Configuration
set_battery_script c script =
    with_string script λ s. record c { battery_script = some s; battery_script_set = true }

unfoldable pub set_log_filename : Configuration → Option CString → Outcome Configuration
set_log_filename c filename =
    with_string filename λ s. record c { log_filename = some s; log_filename_set = true }

unfoldable pub destroy_config : Configuration → Configuration
destroy_config c = record c {
  remote_addr = none;
  release = none;
  user = none;
  group = none;
  log_filename = none;
  battery_script = none;
}

abbrev is_null : Option CString → Bool
is_null none = true
is_null (some s) = false

-- 1 if both were set, else 0
unfoldable pub user_and_group_set : Configuration → ℕ
user_and_group_set c =
    let status : ℕ = if is_null c.user then 0 else 1 in if is_null c.group then 0 else status
