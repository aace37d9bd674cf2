-- ===== src/Research/Config/Safe.antt =====
-- The errors of src/research/config.cpp.
use ctguard.Base.{Option, Bytes, codes}
use ctguard.ConfigFile.Group.{Groups, nil, cons}
use ctguard.ConfigFile.Settings.Safe.{
  Safe, SafeSetter, safe_rules, Safe-bind, Safe-read_options, load-Safe,
}
use ctguard.Research.Config.{
  Config, default_config, set_option, no_subgroups, read_research, parse_config,
}

set_option-Safe : SafeSetter set_option
unfolding set_option
set_option-Safe key v vs cfg = search safe_rules depth 30

no_subgroups-Safe : (gs : Groups) (cfg : Config) → Safe (no_subgroups gs cfg)
unfolding no_subgroups
no_subgroups-Safe nil cfg = tt
no_subgroups-Safe (cons g gs rest) cfg = tt

pub parse_config-Safe : (file : Option Bytes) → Safe (parse_config file)
unfolding parse_config read_research
parse_config-Safe file = load-Safe (codes "research") read_research default_config file (λ g c v.
    Safe-bind _ _ (Safe-read_options set_option g.0.options c set_option-Safe v.0)
      (no_subgroups-Safe g.1))
