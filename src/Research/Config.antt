-- ===== src/Research/Config.antt =====
-- `research_config` (src/research/config.hpp), and how it is read (src/research/config.cpp).
pub mod Safe
use ctguard.Base.{
  ℕ, ◌*◌, Bool, true, false, ◌&&◌, List, [], ◌∷◌, ◌++◌, Option, none, some, Bytes, codes, beq,
  if◌then◌else◌, Outcome, ok, err, ◌>>=◌, ◌>>◌, guard, relabel, not, is_empty,
}
use ctguard.Helper.{parse_integral, parse_bool, parse_second_duration, max_int, max_short}
use ctguard.ConfigFile.Group.{ConfigGroup, GroupInfo, Groups, nil, cons}
use ctguard.ConfigFile.Settings.{
  Loaded, unknown_option, unknown_group, bad_value, empty_key, no_command, first, single, duration,
  one_of, read_options, read_groups, load,
}

pub data InterventionKind : Type 0 where
  socket file : InterventionKind

pub record Config : Type 0 where
  pub rules_file : Bytes
  pub rules_directory : Bytes
  pub log_path : Bytes
  pub output_path : Bytes
  pub input_path : Bytes
  pub intervention_path : Bytes
  pub intervention_kind : InterventionKind
  pub log_priority : ℕ
  pub mail : Bool
  pub mail_interval : ℕ
  pub mail_sample_time : ℕ
  pub mail_max_sample_count : ℕ
  pub mail_priority : ℕ
  pub mail_instant : ℕ
  pub mail_host : Bytes
  pub mail_fromaddr : Bytes
  pub mail_toaddr : Bytes
  pub mail_replyaddr : Bytes
  pub mail_port : Bytes

abbrev pub default_config : Config
default_config = record {
  rules_file = [];
  rules_directory = codes "/etc/ctguard/rules/";
  log_path = codes "/var/log/ctguard/research.log";
  output_path = codes "/var/log/ctguard/alerts.log";
  input_path = codes "/run/ctguard/research.sock";
  intervention_path = codes "/run/ctguard_intervention.sock";
  intervention_kind = socket;
  log_priority = 1;
  mail = true;
  mail_interval = 30;
  mail_sample_time = 1;
  mail_max_sample_count = 1000;
  mail_priority = 4;
  mail_instant = 7;
  mail_host = codes "localhost";
  mail_fromaddr = codes "ctguard@localhost";
  mail_toaddr = codes "root@localhost";
  mail_replyaddr = codes "root@localhost";
  mail_port = codes "25";
}

-- One option of the group `research`.
unfoldable pub set_option : Bytes → List Bytes → Config → Loaded Config
unfolding first single duration one_of
set_option key vs cfg =
    if beq key (codes "rules_file")
    then (do v ← single vs; ok (record cfg { rules_file = v }))
    else if beq key (codes "rules_directory")
    then (do v ← single vs; ok (record cfg { rules_directory = v }))
    else if beq key (codes "log_path")
    then (do v ← single vs; ok (record cfg { log_path = v }))
    else if beq key (codes "output_path")
    then (do v ← single vs; ok (record cfg { output_path = v }))
    else if beq key (codes "input_path")
    then (do v ← single vs; ok (record cfg { input_path = v }))
    else if beq key (codes "log_priority")
    then (do
      v ← single vs
      n ← relabel bad_value (parse_integral max_short v)
      ok (record cfg { log_priority = n }))
    else if beq key (codes "mail")
    then (do v ← first vs; b ← relabel bad_value (parse_bool v); ok (record cfg { mail = b }))
    else if beq key (codes "mail_interval")
    then (do n ← duration vs; ok (record cfg { mail_interval = n }))
    else if beq key (codes "mail_sample_time")
    then (do n ← duration vs; ok (record cfg { mail_sample_time = n }))
    else if beq key (codes "mail_priority")
    then (do
      v ← single vs
      n ← relabel bad_value (parse_integral max_short v)
      ok (record cfg { mail_priority = n }))
    else if beq key (codes "mail_max_sample_count")
    then (do
      v ← single vs
      n ← relabel bad_value (parse_integral max_int v)
      ok (record cfg { mail_max_sample_count = n }))
    else if beq key (codes "mail_instant")
    then (do
      v ← single vs
      n ← relabel bad_value (parse_integral max_short v)
      ok (record cfg { mail_instant = n }))
    else if beq key (codes "mail_port")
    then (do v ← single vs; ok (record cfg { mail_port = v }))
    else if beq key (codes "mail_host")
    then (do v ← single vs; ok (record cfg { mail_host = v }))
    else if beq key (codes "mail_fromaddr")
    then (do v ← single vs; ok (record cfg { mail_fromaddr = v }))
    else if beq key (codes "mail_replyaddr")
    then (do v ← single vs; ok (record cfg { mail_replyaddr = v }))
    else if beq key (codes "mail_toaddr")
    then (do v ← single vs; ok (record cfg { mail_toaddr = v }))
    else if beq key (codes "intervention_path")
    then (do v ← single vs; ok (record cfg { intervention_path = v }))
    else if beq key (codes "intervention_kind")
    then (do
      v ← single vs
      k ← one_of (codes "socket") socket (codes "file") file v
      ok (record cfg { intervention_kind = k }))
    else err unknown_option

-- The group may have no subgroup.
unfoldable pub no_subgroups : Groups → Config → Loaded Config
no_subgroups nil cfg = ok cfg
no_subgroups (cons g gs rest) cfg = err unknown_group

unfoldable pub read_research : ConfigGroup → Config → Loaded Config
unfolding set_option no_subgroups read_options
read_research (g, gs) cfg = read_options set_option g.options cfg >>= no_subgroups gs

unfoldable pub parse_config : Option Bytes → Loaded Config
unfolding read_research load
parse_config = load (codes "research") read_research default_config
