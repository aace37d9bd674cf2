-- ===== src/Logscan/Config/Safe.antt =====
-- The errors of src/logscan/config.cpp.
use ctguard.Base.{Option, Bytes, codes}
use ctguard.ConfigFile.Group.{GroupInfo}
use ctguard.ConfigFile.Parser.Valued.{Filled}
use ctguard.ConfigFile.Settings.Safe.{
  Safe, SafeSetter, safe_rules, Safe-bind, Safe-guard, Safe-read_options, Safe-read_groups,
  load-Safe,
}
use ctguard.Logscan.Config.{
  Config, new_logfile, default_config, set_option, set_logfile, add_logfile, read_logscan,
  parse_config,
}

set_option-Safe : SafeSetter set_option
unfolding set_option
set_option-Safe key v vs cfg = search safe_rules depth 30

set_logfile-Safe : SafeSetter set_logfile
unfolding set_logfile
set_logfile-Safe key v vs cfg = search safe_rules depth 30

add_logfile-Safe : (g : GroupInfo) (cfg : Config) → Filled g.options → Safe (add_logfile g cfg)
unfolding add_logfile
add_logfile-Safe g cfg f =
    let read = Safe-read_options set_logfile g.options (new_logfile g.keyword) set_logfile-Safe f in
    search (safe_rules, Safe-guard, read) depth 30

pub parse_config-Safe : (file : Option Bytes) → Safe (parse_config file)
unfolding parse_config read_logscan
parse_config-Safe file = load-Safe (codes "logscan") read_logscan default_config file (λ g c v.
    Safe-bind _ _ (Safe-read_options set_option g.0.options c set_option-Safe v.0)
      (λ c. Safe-read_groups add_logfile g.1 c add_logfile-Safe v.1))
