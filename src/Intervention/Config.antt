-- ===== src/Intervention/Config.antt =====
-- `intervention_config` (src/intervention/config.hpp), and how it is read
-- (src/intervention/config.cpp). Whether a text is a regular expression is a parameter.
pub mod Safe
pub mod Ready
use ctguard.Base.{
  ℕ, ◌*◌, Bool, true, false, ◌&&◌, List, [], ◌∷◌, ◌++◌, Option, none, some, Bytes, codes, beq,
  if◌then◌else◌, Outcome, ok, err, ◌>>=◌, ◌>>◌, guard, relabel, not, is_empty,
}
use ctguard.Helper.{parse_integral, parse_bool, parse_second_duration, max_int, max_short}
use ctguard.ConfigFile.Group.{ConfigGroup, GroupInfo, Groups, nil, cons}
use ctguard.ConfigFile.Settings.{
  Loaded, unknown_option, unknown_group, bad_value, empty_key, no_command, first, single, duration,
  one_of, read_options, read_groups, load,
}

pub record InterventionAction : Type 0 where
  pub name : Bytes
  pub command : Bytes
  pub user : Bytes
  pub group : Bytes
  pub regex : Bytes
  pub whitelist : List Bytes
  pub command_timeout : ℕ

pub record Config : Type 0 where
  pub log_path : Bytes
  pub input_path : Bytes
  pub actions : List InterventionAction

abbrev pub new_action : Bytes → InterventionAction
new_action name = record {
  name = name;
  command = [];
  user = [];
  group = [];
  regex = [];
  whitelist = [];
  command_timeout = 30;
}

abbrev pub default_config : Config
default_config = record {
  log_path = codes "/var/log/ctguard/intervention.log";
  input_path = codes "/run/ctguard_intervention.sock";
  actions = [];
}

-- One option of the group `intervention`.
unfoldable pub set_option : Bytes → List Bytes → Config → Loaded Config
unfolding single
set_option key vs cfg =
    if beq key (codes "input_path")
    then (do v ← single vs; ok (record cfg { input_path = v }))
    else if beq key (codes "log_path")
    then (do v ← single vs; ok (record cfg { log_path = v }))
    else err unknown_option

-- A command is asked for behind the options.
unfoldable pub with_command : InterventionAction → Loaded InterventionAction
with_command action = guard (not (is_empty action.command)) no_command >> ok action

module _ (compiles : Bytes → Bool) where
  -- One option of a group `action`.
  unfoldable pub set_action : Bytes → List Bytes → InterventionAction → Loaded InterventionAction
  unfolding single duration
  set_action key vs cfg =
      if beq key (codes "command")
      then (do v ← single vs; ok (record cfg { command = v }))
      else if beq key (codes "user")
      then (do v ← single vs; ok (record cfg { user = v }))
      else if beq key (codes "group")
      then (do v ← single vs; ok (record cfg { group = v }))
      else if beq key (codes "command_timeout")
      then (do n ← duration vs; ok (record cfg { command_timeout = n }))
      else if beq key (codes "regex")
      then (do v ← single vs; guard (compiles v) bad_value; ok (record cfg { regex = v }))
      else if beq key (codes "whitelist")
      then ok (record cfg { whitelist = vs })
      else err unknown_option

  unfoldable pub read_action : GroupInfo → Loaded InterventionAction
  unfolding set_action with_command read_options
  read_action g =
      guard (not (is_empty g.keyword)) empty_key
      >> (read_options set_action g.options (new_action g.keyword) >>= with_command)

  unfoldable pub add_action : GroupInfo → Config → Loaded Config
  unfolding read_action
  add_action g cfg =
      if beq g.name (codes "action")
      then (do action ← read_action g; ok (record cfg { actions = cfg.actions ++ (action ∷ []) }))
      else err unknown_group

  unfoldable pub read_intervention : ConfigGroup → Config → Loaded Config
  unfolding set_option add_action read_options read_groups
  read_intervention (g, gs) cfg =
      read_options set_option g.options cfg >>= read_groups add_action gs

  unfoldable pub parse_config : Option Bytes → Loaded Config
  unfolding read_intervention load
  parse_config = load (codes "intervention") read_intervention default_config
