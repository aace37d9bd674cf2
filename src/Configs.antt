-- ===== src/Configs.antt =====
-- The configurations of the four daemons together.
use ctguard.Base.{◌≢◌, Bool, Bytes, Option, err}
use ctguard.ConfigFile.Settings.{out_of_range}
use ctguard.ConfigFile.Settings.Safe.{Safe-no_overrun}
use ctguard.Research.Config.{parse_config as research}
use ctguard.Research.Config.Safe.{parse_config-Safe as research-Safe}
use ctguard.Logscan.Config.{parse_config as logscan}
use ctguard.Logscan.Config.Safe.{parse_config-Safe as logscan-Safe}
use ctguard.Diskscan.Config.{read_config as diskscan}
use ctguard.Diskscan.Config.Safe.{read_config-Safe as diskscan-Safe}
use ctguard.Intervention.Config.{parse_config as intervention}
use ctguard.Intervention.Config.Safe.{parse_config-Safe as intervention-Safe}

-- Whatever a configuration file holds, and whatever the regular expressions say, none of the four
-- daemons reads the values of an option past their end.
pub configs_safe :
    (compiles : Bytes → Bool) (found : Bytes → Bytes → Bool) (file : Option Bytes)
    → (research file ≢ err out_of_range)
      × (logscan file ≢ err out_of_range)
      × (diskscan compiles found file ≢ err out_of_range)
      × (intervention compiles file ≢ err out_of_range)
configs_safe compiles found file = (
  Safe-no_overrun _ (research-Safe file),
  Safe-no_overrun _ (logscan-Safe file),
  Safe-no_overrun _ (diskscan-Safe compiles found file),
  Safe-no_overrun _ (intervention-Safe compiles file),
)
