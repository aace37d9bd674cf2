-- ===== src/Intervention/Config/Safe.antt =====
-- The errors of src/intervention/config.cpp.
use ctguard.Base.{Bool, Option, Bytes, codes}
use ctguard.ConfigFile.Group.{GroupInfo}
use ctguard.ConfigFile.Parser.Valued.{Filled}
use ctguard.ConfigFile.Settings.Safe.{
  Safe, SafeSetter, safe_rules, Safe-bind, Safe-guard, Safe-read_options, Safe-read_groups,
  load-Safe,
}
use ctguard.Intervention.Config.{
  Config, default_config, new_action, set_option, set_action, with_command, read_action, add_action,
  read_intervention, parse_config,
}

set_option-Safe : SafeSetter set_option
unfolding set_option
set_option-Safe key v vs cfg = search safe_rules depth 30

module _ (compiles : Bytes → Bool) where
  set_action-Safe : SafeSetter (set_action compiles)
  unfolding set_action
  set_action-Safe key v vs cfg = search (safe_rules, Safe-guard) depth 30

  read_action-Safe : (g : GroupInfo) → Filled g.options → Safe (read_action compiles g)
  unfolding read_action with_command
  read_action-Safe g f =
      let read =
        Safe-read_options (set_action compiles) g.options (new_action g.keyword) set_action-Safe
          f in
      search (safe_rules, Safe-guard, read) depth 30

  add_action-Safe :
      (g : GroupInfo) (cfg : Config) → Filled g.options → Safe (add_action compiles g cfg)
  unfolding add_action
  add_action-Safe g cfg f = search (safe_rules, read_action-Safe) depth 30

  pub parse_config-Safe : (file : Option Bytes) → Safe (parse_config compiles file)
  unfolding parse_config read_intervention
  parse_config-Safe file =
      load-Safe (codes "intervention") (read_intervention compiles) default_config file (λ g c v.
        Safe-bind _ _ (Safe-read_options set_option g.0.options c set_option-Safe v.0)
          (λ c. Safe-read_groups (add_action compiles) g.1 c add_action-Safe v.1))
