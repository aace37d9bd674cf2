-- ===== src/Diskscan/Config.antt =====
-- `diskscan_config` and `watch` (src/diskscan/config.hpp, watch.hpp), and how they are read
-- (src/diskscan/config.cpp). Regular expressions are parameters: whether a text is one, and whether
-- it is found in another.
pub mod Safe
use ctguard.Base.{
  ℕ, ◌*◌, Bool, true, false, ◌&&◌, List, [], ◌∷◌, ◌++◌, Option, none, some, Bytes, codes, beq,
  if◌then◌else◌, Outcome, ok, err, ◌>>=◌, ◌>>◌, guard, relabel, not, is_empty,
}
use ctguard.Helper.{parse_integral, parse_bool, parse_second_duration, max_int, max_short}
use ctguard.ConfigFile.Group.{ConfigGroup, GroupInfo, Groups, nil, cons}
use ctguard.ConfigFile.Settings.{
  Loaded, unknown_option, unknown_group, bad_value, empty_key, no_command, first, single, duration,
  one_of, read_options, read_groups, load,
}

pub data ScanOption : Type 0 where
  full : ScanOption

pub record Watch : Type 0 where
  pub path : Bytes
  pub option : ScanOption
  pub recursive : Bool
  pub realtime : Bool
  pub check_diff : Bool

pub data OutputKind : Type 0 where
  socket file : OutputKind

pub record Config : Type 0 where
  pub watches : List Watch
  pub db_path : Bytes
  pub diffdb_path : Bytes
  pub log_path : Bytes
  pub output_path : Bytes
  pub output_kind : OutputKind
  pub realtime_ignore : Option Bytes
  pub scaninterval : ℕ
  pub settle_time : ℕ
  pub block_size : ℕ
  pub max_diff_size : ℕ

abbrev pub default_config : Config
default_config = record {
  watches = [];
  db_path = codes "/var/lib/ctguard/diskscan.db";
  diffdb_path = codes "/var/lib/ctguard/diskscan_diff.db";
  log_path = codes "/var/log/ctguard/diskscan.log";
  output_path = codes "/run/ctguard/research.sock";
  output_kind = socket;
  realtime_ignore = none;
  scaninterval = 6 * 60 * 60;
  settle_time = 100;
  block_size = 1000;
  max_diff_size = 1048576;
}

abbrev pub new_watch : Bytes → Watch
new_watch path = record {
  path = path;
  option = full;
  recursive = true;
  realtime = false;
  check_diff = false;
}

-- One option of a group `directory`.
unfoldable pub set_directory : Bytes → List Bytes → Watch → Loaded Watch
unfolding single one_of
set_directory key vs cfg =
    if beq key (codes "recursive")
    then (do
      v ← single vs
      b ← one_of (codes "true") true (codes "false") false v
      ok (record cfg { recursive = b }))
    else if beq key (codes "realtime")
    then (do
      v ← single vs
      b ← one_of (codes "true") true (codes "false") false v
      ok (record cfg { realtime = b }))
    else if beq key (codes "checkdiff")
    then (do
      v ← single vs
      b ← one_of (codes "true") true (codes "false") false v
      ok (record cfg { check_diff = b }))
    else if beq key (codes "checks")
    then (do
      v ← single vs
      guard (beq v (codes "full")) bad_value
      ok (record cfg { option = full }))
    else err unknown_option

unfoldable pub add_watch : GroupInfo → Config → Loaded Config
unfolding set_directory read_options
add_watch g cfg =
    if beq g.name (codes "directory")
    then (do
      guard (not (is_empty g.keyword)) empty_key
      w ← read_options set_directory g.options (new_watch g.keyword)
      ok (record cfg { watches = cfg.watches ++ (w ∷ []) }))
    else err unknown_group

-- What an expression for `realtime_ignore` must not be found in.
abbrev not_to_match : Bytes
not_to_match = codes "TEstXXThisshouldNotMatch"

module _ (compiles : Bytes → Bool) (search : Bytes → Bytes → Bool) where
  -- One option of the group `diskscan`.
  unfoldable pub set_option : Bytes → List Bytes → Config → Loaded Config
  unfolding first single one_of
  set_option key vs cfg =
      if beq key (codes "db_path")
      then (do v ← single vs; ok (record cfg { db_path = v }))
      else if beq key (codes "diffdb_path")
      then (do v ← single vs; ok (record cfg { diffdb_path = v }))
      else if beq key (codes "log_path")
      then (do v ← single vs; ok (record cfg { log_path = v }))
      else if beq key (codes "output_path")
      then (do v ← single vs; ok (record cfg { output_path = v }))
      else if beq key (codes "realtime_ignore")
      then (do
        v ← single vs
        guard (compiles v && not (search v not_to_match)) bad_value
        ok (record cfg { realtime_ignore = some v }))
      else if beq key (codes "scaninterval")
      then (do
        n ← relabel bad_value (parse_second_duration vs)
        ok (record cfg { scaninterval = n }))
      else if beq key (codes "settle_time")
      then (do
        v ← first vs
        n ← relabel bad_value (parse_integral max_short v)
        ok (record cfg { settle_time = n }))
      else if beq key (codes "block_size")
      then (do
        v ← first vs
        n ← relabel bad_value (parse_integral max_short v)
        ok (record cfg { block_size = n }))
      else if beq key (codes "max_diff_size")
      then (do
        v ← first vs
        n ← relabel bad_value (parse_integral max_int v)
        ok (record cfg { max_diff_size = n }))
      else if beq key (codes "output_kind")
      then (do
        v ← single vs
        k ← one_of (codes "socket") socket (codes "file") file v
        ok (record cfg { output_kind = k }))
      else err unknown_option

  unfoldable pub read_diskscan : ConfigGroup → Config → Loaded Config
  unfolding set_option add_watch read_options read_groups
  read_diskscan (g, gs) cfg = read_options set_option g.options cfg >>= read_groups add_watch gs

  unfoldable pub read_config : Option Bytes → Loaded Config
  unfolding read_diskscan load
  read_config = load (codes "diskscan") read_diskscan default_config
