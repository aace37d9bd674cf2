-- ===== src/Logscan/Config/Interval.antt =====
-- `state_file_interval` of src/logscan/config.cpp.
use ctguard.Base.{◌≡◌, refl, List, Option, Bytes, codes, ok, Post-eq-ok, Post-bind, Whatever}
use ctguard.ConfigFile.Settings.Keeps.{
  Gives, Gives-if, Gives-then, Gives-read_options, Gives-read_groups, Gives-load,
}
use ctguard.ConfigFile.Group.{GroupInfo}
use ctguard.Logscan.Config.{
  Config, default_config, set_option, add_logfile, read_logscan, parse_config,
}

abbrev Default : Config → Type 0
Default cfg = cfg.state_file_interval ≡ 30

set_option-Default :
    (key : Bytes) (vs : List Bytes) (cfg : Config)
    → Default cfg
    → Gives Default (set_option key vs cfg)
unfolding set_option
set_option-Default key vs cfg q = search (Gives-if Default, Gives-then Default) depth 30

add_logfile-Default :
    (g : GroupInfo) (cfg : Config) → Default cfg → Gives Default (add_logfile g cfg)
unfolding add_logfile
add_logfile-Default g cfg q = search (Gives-if Default, Gives-then Default) depth 30

-- Whatever the file says, the state file is written after 30 checks: no option sets
-- state_file_interval, not the one of that name either.
pub parse_config-interval :
    (file : Option Bytes) (cfg : Config) → parse_config file ≡ ok cfg → cfg.state_file_interval ≡ 30
unfolding parse_config read_logscan
parse_config-interval file cfg e =
    Post-eq-ok Default (parse_config file)
      (Gives-load Default (codes "logscan") read_logscan default_config file
        (λ g c q.
          Post-bind Whatever Default Default _ _
            (Gives-read_options Default set_option g.0.options c set_option-Default q)
            (λ c r. Gives-read_groups Default add_logfile g.1 c add_logfile-Default r))
        refl)
      e
