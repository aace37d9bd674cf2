-- ===== src/Tests/Intervention.antt =====
-- Commands carried out, and the theorems about ctguard-intervention applied.
use ctguard.Base.{
  ◌≡◌, refl, Bool, List, [], ◌∷◌, Option, some, Bytes, codes, ok, true, false, All, if◌then◌else◌,
  ◌==◌, isspace, isalpha, isalnum, isdigit, beq, before, lookup, assign, emplace, is_empty,
  contains,
}
use ctguard.Helper.{
  skip_space, read_sign, read_digits, stoul, parse_integral, parse_bool, in_seconds,
  parse_second_duration,
}
use ctguard.ConfigFile.Token.{line_break, char_advance, earlier, is_char, is_name, is_value}
use ctguard.ConfigFile.Lexer.{
  moved, mygetchar, ends_comment, passes, skip, quoted, span, in_identifier, read_token, gettok,
  get, fresh_lexer,
}
use ctguard.ConfigFile.Group.{new_group, insert_group, has_keyword}
use ctguard.ConfigFile.Parser.{
  parse, parse_group, read_group, finish, read_entry, add_group, read_option, more_values,
}
use ctguard.ConfigFile.Settings.{
  first, single, converted, duration, one_of, read_options, read_groups, read_tops, or_syntax,
  parsed, load,
}
use ctguard.Intervention.Config.{
  Config, default_config, set_option, set_action, with_command, read_action, add_action,
  read_intervention, parse_config,
}
use ctguard.Research.Tasks.Intervention.{InterventionCmd}
use ctguard.Intervention.Action.{Host, found}
use ctguard.Intervention.Child.{running, exited, bytes}
use ctguard.Intervention.Tasks.{System, Launch, started, processing_task}
use ctguard.Intervention.Tasks.Permitted.{Permitted, processing_task-Permitted}
use ctguard.Intervention.Tasks.Accepted.{Answered, processing_task-Answered}

abbrev file : Bytes
file =
    codes
      "intervention { action drop {\n command = \"/bin/drop\"\n user = nobody\n command_timeout = 2\n whitelist = me\n regex = \"[a-z]*\"\n } }"

abbrev config : Config
config = record default_config {
  actions =
      record {
        name = codes "drop";
        command = codes "/bin/drop";
        user = codes "nobody";
        group = [];
        regex = codes "[a-z]*";
        whitelist = codes "me" ∷ [];
        command_timeout = 2;
      }
      ∷ [];
}

abbrev compiles : Bytes → Bool
compiles p = true

file_read : parse_config compiles (some file) ≡ ok config
unfolding isspace isalpha isalnum isdigit beq before lookup assign emplace is_empty contains
    skip_space read_sign read_digits stoul parse_integral parse_bool in_seconds
    parse_second_duration line_break char_advance earlier is_char is_name is_value moved mygetchar
    ends_comment passes skip quoted span in_identifier read_token gettok get fresh_lexer new_group
    insert_group has_keyword parse parse_group read_group finish read_entry add_group read_option
    more_values first single converted duration one_of read_options read_groups read_tops or_syntax
    parsed load set_option set_action with_command read_action add_action read_intervention
    parse_config
file_read = refl

abbrev regex_match : Bytes → Bytes → Option Bool
regex_match p s = some true

abbrev host : Host
host = record { group_entry = λ g. found 100; user_entry = λ u. found 65534; succeeds = λ c. true }

abbrev system : System
system = record { host = host; unit_test = false; regex_match = regex_match }

-- The second command is on the whitelist.
abbrev jobs : List ((InterventionCmd × Bool) × Launch)
jobs =
    (
      (record { name = codes "drop"; argument = codes "you" }, false),
      started (λ n. if n == 0 then running else exited 0) (bytes (codes "done\n") ∷ []) [],
    )
    ∷ (
      (record { name = codes "drop"; argument = codes "me" }, false),
      started (λ n. exited 0) [] [],
    )
    ∷ []

processing_task-Permitted_example :
    All (Permitted system config) (processing_task system config jobs)
processing_task-Permitted_example = processing_task-Permitted system config jobs

processing_task-Answered_example :
    All (Answered compiles system config) (processing_task system config jobs)
processing_task-Answered_example =
    processing_task-Answered compiles system (some file) config jobs file_read
