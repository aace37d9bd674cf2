-- ===== src/Diskscan/Config/Safe.antt =====
-- The errors of src/diskscan/config.cpp.
use ctguard.Base.{Bool, Option, Bytes, codes}
use ctguard.ConfigFile.Group.{GroupInfo}
use ctguard.ConfigFile.Parser.Valued.{Filled}
use ctguard.ConfigFile.Settings.Safe.{
  Safe, SafeSetter, safe_rules, Safe-bind, Safe-guard, Safe-read_options, Safe-read_groups,
  load-Safe,
}
use ctguard.Diskscan.Config.{
  Config, new_watch, default_config, set_option, set_directory, add_watch, read_diskscan,
  read_config,
}

set_directory-Safe : SafeSetter set_directory
unfolding set_directory
set_directory-Safe key v vs cfg = search (safe_rules, Safe-guard) depth 30

add_watch-Safe : (g : GroupInfo) (cfg : Config) → Filled g.options → Safe (add_watch g cfg)
unfolding add_watch
add_watch-Safe g cfg f =
    let read =
      Safe-read_options set_directory g.options (new_watch g.keyword) set_directory-Safe f in
    search (safe_rules, Safe-guard, read) depth 30

module _ (compiles : Bytes → Bool) (found : Bytes → Bytes → Bool) where
  set_option-Safe : SafeSetter (set_option compiles found)
  unfolding set_option
  set_option-Safe key v vs cfg = search (safe_rules, Safe-guard) depth 30

  pub read_config-Safe : (file : Option Bytes) → Safe (read_config compiles found file)
  unfolding read_config read_diskscan
  read_config-Safe file =
      load-Safe (codes "diskscan") (read_diskscan compiles found) default_config file (λ g c v.
        Safe-bind _ _
          (Safe-read_options (set_option compiles found) g.0.options c set_option-Safe v.0)
          (λ c. Safe-read_groups add_watch g.1 c add_watch-Safe v.1))
