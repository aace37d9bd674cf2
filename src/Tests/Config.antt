-- ===== src/Tests/Config.antt =====
-- Configuration files read, and the theorems about configurations applied.
use ctguard.Base.{
  ◌≡◌, ◌≢◌, refl, some, Bytes, codes, ok, err, true, false, isspace, isalpha, isalnum, isdigit, beq,
  before, lookup, assign, emplace, is_empty, contains,
}
use ctguard.Helper.{
  skip_space, read_sign, read_digits, stoul, parse_integral, parse_bool, in_seconds,
  parse_second_duration,
}
use ctguard.ConfigFile.Token.{line_break, char_advance, earlier, is_char, is_name, is_value}
use ctguard.ConfigFile.Lexer.{
  moved, mygetchar, ends_comment, passes, skip, quoted, span, in_identifier, read_token, gettok,
  get, fresh_lexer,
}
use ctguard.ConfigFile.Group.{new_group, insert_group, has_keyword}
use ctguard.ConfigFile.Parser.{
  too_deep, parse, parse_group, read_group, finish, read_entry, add_group, read_option, more_values,
}
use ctguard.ConfigFile.Settings.{
  out_of_range, first, single, converted, duration, one_of, read_options, read_groups, read_tops,
  or_syntax, parsed, load,
}
use ctguard.Research.Config.{
  Config, default_config, set_option, no_subgroups, read_research, parse_config,
}
use ctguard.ConfigFile.Parser.Total.{parse_total}
use ctguard.Configs.{configs_safe}
use ctguard.Logscan.Config.{parse_config as logscan}
use ctguard.Diskscan.Config.{read_config as diskscan}
use ctguard.Intervention.Config.{parse_config as intervention}

abbrev file : Bytes
file = codes "# ctguard\nresearch {\n  log_priority = 3\n  mail_interval = 2 m\n}\n"

parse_total_example : parse file ≢ err too_deep
parse_total_example = parse_total file

configs_safe_example :
    (parse_config (some file) ≢ err out_of_range)
    × (logscan (some file) ≢ err out_of_range)
    × (diskscan (λ p. true) (λ p s. false) (some file) ≢ err out_of_range)
    × (intervention (λ p. true) (some file) ≢ err out_of_range)
configs_safe_example = configs_safe (λ p. true) (λ p s. false) (some file)

abbrev config : Config
config = record default_config { log_priority = 3; mail_interval = 120 }

file_read : parse_config (some file) ≡ ok config
unfolding isspace isalpha isalnum isdigit beq before lookup assign emplace is_empty contains
    skip_space read_sign read_digits stoul parse_integral parse_bool in_seconds
    parse_second_duration line_break char_advance earlier is_char is_name is_value moved mygetchar
    ends_comment passes skip quoted span in_identifier read_token gettok get fresh_lexer new_group
    insert_group has_keyword parse parse_group read_group finish read_entry add_group read_option
    more_values first single converted duration one_of read_options read_groups read_tops or_syntax
    parsed load set_option no_subgroups read_research parse_config
file_read = refl
