-- ===== src/Logscan/Config.antt =====
-- `logscan_config` (src/logscan/config.hpp), and how it is read (src/logscan/config.cpp).
pub mod Safe
pub mod Interval
use ctguard.Base.{
  ℕ, ◌*◌, Bool, true, false, ◌&&◌, List, [], ◌∷◌, ◌++◌, Option, none, some, Bytes, codes, beq,
  if◌then◌else◌, Outcome, ok, err, ◌>>=◌, ◌>>◌, guard, relabel, not, is_empty,
}
use ctguard.Helper.{parse_integral, parse_bool, parse_second_duration, max_int, max_short}
use ctguard.ConfigFile.Group.{ConfigGroup, GroupInfo, Groups, nil, cons}
use ctguard.ConfigFile.Settings.{
  Loaded, unknown_option, unknown_group, bad_value, empty_key, no_command, first, single, duration,
  one_of, read_options, read_groups, load,
}

pub record LogfileConfig : Type 0 where
  pub path : Bytes
  pub timeout_alert : ℕ

pub data OutputKind : Type 0 where
  socket file : OutputKind

pub record Config : Type 0 where
  pub log_files : List LogfileConfig
  pub check_interval : ℕ
  pub state_file_interval : ℕ
  pub output_kind : OutputKind
  pub state_file : Bytes
  pub output_path : Bytes
  pub log_path : Bytes
  pub systemd_socket : Bytes
  pub systemd_input : Bool

abbrev pub default_config : Config
default_config = record {
  log_files = [];
  check_interval = 1;
  state_file_interval = 30;
  output_kind = socket;
  state_file = codes "/var/lib/ctguard/logscan.state";
  output_path = codes "/run/ctguard/research.sock";
  log_path = codes "/var/log/ctguard/logscan.log";
  systemd_socket = codes "/run/systemd/journal/syslog";
  systemd_input = true;
}

-- One option of the group `logscan`.
unfoldable pub set_option : Bytes → List Bytes → Config → Loaded Config
unfolding first single one_of
set_option key vs cfg =
    if beq key (codes "check_interval")
    then (do
      n ← relabel bad_value (parse_second_duration vs)
      ok (record cfg { check_interval = n }))
    else if beq key (codes "state_file_interval")
    then (do
      v ← first vs
      n ← relabel bad_value (parse_integral max_int v)
      ok (record cfg { check_interval = n }))
    else if beq key (codes "state_file")
    then (do v ← single vs; ok (record cfg { state_file = v }))
    else if beq key (codes "output_path")
    then (do v ← single vs; ok (record cfg { output_path = v }))
    else if beq key (codes "log_path")
    then (do v ← single vs; ok (record cfg { log_path = v }))
    else if beq key (codes "systemd_socket")
    then (do v ← single vs; ok (record cfg { systemd_socket = v }))
    else if beq key (codes "output_kind")
    then (do
      v ← single vs
      k ← one_of (codes "socket") socket (codes "file") file v
      ok (record cfg { output_kind = k }))
    else if beq key (codes "systemd_input")
    then (do
      v ← single vs
      b ← relabel bad_value (parse_bool v)
      ok (record cfg { systemd_input = b }))
    else err unknown_option

abbrev pub new_logfile : Bytes → LogfileConfig
new_logfile path = record { path = path; timeout_alert = 0 }

-- One option of a group `logfile`.
unfoldable pub set_logfile : Bytes → List Bytes → LogfileConfig → Loaded LogfileConfig
unfolding duration
set_logfile key vs cfg =
    if beq key (codes "timeout_warning")
    then (do n ← duration vs; ok (record cfg { timeout_alert = n }))
    else err unknown_option

unfoldable pub add_logfile : GroupInfo → Config → Loaded Config
unfolding set_logfile read_options
add_logfile g cfg =
    if beq g.name (codes "logfile")
    then (do
      guard (not (is_empty g.keyword)) empty_key
      lc ← read_options set_logfile g.options (new_logfile g.keyword)
      ok (record cfg { log_files = cfg.log_files ++ (lc ∷ []) }))
    else err unknown_group

unfoldable pub read_logscan : ConfigGroup → Config → Loaded Config
unfolding set_option add_logfile read_options read_groups
read_logscan (g, gs) cfg = read_options set_option g.options cfg >>= read_groups add_logfile gs

unfoldable pub parse_config : Option Bytes → Loaded Config
unfolding read_logscan load
parse_config = load (codes "logscan") read_logscan default_config
