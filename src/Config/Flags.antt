-- ===== src/Config/Flags.antt =====
-- The `*_set` flags of the configuration agree with the strings that they speak for.
use bdremote_ng.Prelude.{false, none, ◌≡◌, ◌≢◌, ◌↔◌, arith}
use bdremote_ng.Config.{Configuration, set_defaults, user_and_group_set}

-- A string is used only under its flag, and then it is there.
pub record IsConsistent (c : Configuration) : Type 0 where
  pub interface_agrees : (c.interface_addr_set ≡ false) ↔ (c.interface_addr ≡ none)
  pub log_agrees : (c.log_filename_set ≡ false) ↔ (c.log_filename ≡ none)
  pub battery_agrees : (c.battery_script_set ≡ false) ↔ (c.battery_script ≡ none)

pub set_defaults-IsConsistent : (c : Configuration) → IsConsistent (set_defaults c)
unfolding set_defaults
set_defaults-IsConsistent c = ground arith

-- user_and_group_set is 1 exactly when neither string is NULL.
pub user_and_group_set_iff :
    (c : Configuration) → (user_and_group_set c ≡ 1) ↔ ((c.user ≢ none) × (c.group ≢ none))
unfolding user_and_group_set
user_and_group_set_iff c = ground arith
