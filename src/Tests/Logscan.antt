-- ===== src/Tests/Logscan.antt =====
-- A log file followed, and the theorems about ctguard-logscan applied.
use ctguard.Base.{
  map, ◌≡◌, refl, ◌++◌, [], ◌∷◌, some, Bytes, codes, ok, true, false, length, arith, isspace,
  isalpha, isalnum, isdigit, beq, before, lookup, assign, emplace, is_empty, contains, digits,
  decimal, concat,
}
use ctguard.Helper.{
  skip_space, read_sign, read_digits, stoul, parse_integral, parse_bool, in_seconds,
  parse_second_duration,
}
use ctguard.ConfigFile.Token.{line_break, char_advance, earlier, is_char, is_name, is_value}
use ctguard.ConfigFile.Lexer.{
  moved, mygetchar, ends_comment, passes, skip, quoted, span, in_identifier, read_token, gettok,
  get, fresh_lexer,
}
use ctguard.ConfigFile.Group.{new_group, insert_group, has_keyword}
use ctguard.ConfigFile.Parser.{
  parse, parse_group, read_group, finish, read_entry, add_group, read_option, more_values,
}
use ctguard.ConfigFile.Settings.{
  first, single, converted, duration, one_of, read_options, read_groups, read_tops, or_syntax,
  parsed, load,
}
use ctguard.Logscan.Config.{
  Config, LogfileConfig, default_config, set_option, set_logfile, add_logfile, read_logscan,
  parse_config,
}
use ctguard.Logscan.Logfile.{Logfile, Look, open_file, follow}
use ctguard.Logscan.Logfile.Steps.{logged}
use ctguard.Logscan.State.{
  get_state, save_state, state_line, state_body, print_position, read_state_lines, with_state,
  read_line, read_behind, read_numbers, read_pos, read_number, drop_digits, cut_at,
}
use ctguard.Logscan.State.RoundTrip.{saved, get_state-save_state}
use ctguard.Logscan.Lines.{lines}
use ctguard.Logscan.Logfile.Reading.{is_closed}
use ctguard.Logscan.Logfile.Follows.{follow-lines}
use ctguard.Logscan.Logfile.Unfinished.{follow-unfinished}

abbrev file : Bytes
file = codes "logscan { state_file_interval = 5 }"

abbrev config : Config
config = record default_config { check_interval = 5 }

file_read : parse_config (some file) ≡ ok config
unfolding isspace isalpha isalnum isdigit beq before lookup assign emplace is_empty contains
    skip_space read_sign read_digits stoul parse_integral parse_bool in_seconds
    parse_second_duration line_break char_advance earlier is_char is_name is_value moved mygetchar
    ends_comment passes skip quoted span in_identifier read_token gettok get fresh_lexer new_group
    insert_group has_keyword parse parse_group read_group finish read_entry add_group read_option
    more_values first single converted duration one_of read_options read_groups read_tops or_syntax
    parsed load set_option set_logfile add_logfile read_logscan parse_config
file_read = refl

abbrev log : LogfileConfig
log = record { path = codes "log"; timeout_alert = 60 }

-- What the system shows of a file with a content.
abbrev shown : Bytes → Look
shown content = record {
  now = 7;
  opened = true;
  stat = some (4, length content);
  reopened = true;
  stream = some content;
}

abbrev old : Bytes
old = codes "old\n"

abbrev one : Bytes
one = codes "one\n\n"

abbrev two : Bytes
two = codes "two\nthree\n"

closed : (is_closed false one ≡ true) × (is_closed false two ≡ true)
unfolding is_closed
closed = (refl, refl)

follow-lines_example :
    logged
      (follow true
        (shown (old ++ one) ∷ shown ((old ++ one) ++ two) ∷ [])
        (open_file true (shown old) [] log).1).0
    ≡ lines [] (concat (one ∷ two ∷ []))
follow-lines_example =
    follow-lines true (shown old) 4 old log (one ∷ two ∷ [])
      (shown (old ++ one) ∷ shown ((old ++ one) ++ two) ∷ []) refl (refl, refl)
      ((refl, refl), closed.0, ((refl, refl), closed.1, tt))

three_lines : lines [] (concat (one ∷ two ∷ [])) ≡ codes "one" ∷ codes "two" ∷ codes "three" ∷ []
unfolding lines is_empty
three_lines = refl

abbrev piece : Bytes
piece = codes "two\nthr"

unfinished : is_closed false piece ≡ false
unfolding is_closed
unfinished = refl

abbrev up_to_date : Logfile
up_to_date = record {
  config = log;
  fd = true;
  position = some 4;
  inode = 4;
  size = some 4;
  down = false;
  last_updated = 7;
  timeout_triggered = false;
}

follow-unfinished_example :
    logged
      (follow true
        (shown (old ++ piece) ∷ shown (codes "old\ntwo\nthree\nfour\n") ∷ [])
        up_to_date).0
    ≡ lines [] piece
follow-unfinished_example =
    follow-unfinished true 4 old piece (shown (old ++ piece))
      (shown (codes "old\ntwo\nthree\nfour\n") ∷ []) up_to_date
      (refl, refl, refl, refl, (old, [], refl, refl, tt)) (refl, refl) unfinished
      (19, refl, omega arith, tt)

state_file : get_state (some (save_state (up_to_date ∷ []))) ≡ ok ((codes "log", 4, 4) ∷ [])
unfolding get_state save_state state_line state_body print_position decimal digits lines is_empty
    read_state_lines with_state read_line read_behind read_numbers read_pos read_number drop_digits
    cut_at skip_space read_sign read_digits isspace isdigit
state_file = refl

get_state-save_state_example :
    get_state (some (save_state (up_to_date ∷ []))) ≡ ok (map saved (up_to_date ∷ []))
get_state-save_state_example = get_state-save_state (up_to_date ∷ []) (
  (
    (
      (λ e. ground arith, λ e. ground arith),
      ((λ e. ground arith, λ e. ground arith), ((λ e. ground arith, λ e. ground arith), tt)),
    ),
    omega arith,
    omega arith,
  ),
  tt,
)
