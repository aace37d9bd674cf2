-- ===== src/Tests/Rules.antt =====
-- The rules of the sample: parsed, and what the parser's theorems say of them.
use ctguard.Base.{
  ok, err, ◌≡◌, ◌≢◌, refl, Outcome, Fails, beq, before, is_empty, isspace, isdigit, lookup, assign,
  emplace, contains, insert, insert_all,
}
use ctguard.Helper.{skip_space, read_sign, read_digits, stoul}
use ctguard.Research.Text.{trim_front, trim, split, trim_all, trimmed_pieces}
use ctguard.Research.Rule.{find_rule}
use ctguard.Research.Parse.{
  read_group, read_intervention, format_name, format_children, check_marks, read_format,
  read_rule_node, read_node, read_nodes, parse_rules,
}
use ctguard.Research.Parse.Check.{unknown_id, build_reg, all_declared, check_draft}
use ctguard.Research.Parse.Draft.{
  parse_integral, parse_bool, parse_rule_match, rule_attribute, rule_attributes, parse_ids,
  unless_attributes, trigger_attributes, activation_attributes, intervention_attributes,
  read_trigger, read_activation, read_intervention_rule, read_unless, read_text_child, read_child,
  read_children, read_rule,
}
use ctguard.Research.Parse.Insert.{
  push_rule, add_child, attach, attach_all, insert_normally, insert_rule,
}
use ctguard.Helper
use ctguard.Research.Env.{too_deep}
use ctguard.Research.Types.{RuleCfg}
use ctguard.Research.Process.{process_log}
use ctguard.Research.Process.Total.{
  WellFormed, IsForeign, process_log_safe, process_log_total, Level,
}
use ctguard.Research.Parse.Placed.{Placed}
use ctguard.Research.Parse.Sound.{no_rules, no_rules-Placed, parse_rules-Placed, parsed_rules_safe}
use ctguard.Tests.Sample.{env, env-MatchesMarks, root, document, failing_line, start}

abbrev pub ok_or {ℓ} : {E : Type 0} {A : Type ℓ} → A → Outcome E A → A
ok_or a (ok b) = b
ok_or a (err e) = a

abbrev pub cfg : RuleCfg
cfg = ok_or no_rules (parse_rules env root document no_rules)

parsed : parse_rules env root document no_rules ≡ ok cfg
unfolding beq before is_empty isspace isdigit lookup assign emplace contains insert insert_all
    skip_space read_sign read_digits stoul trim_front trim split trim_all trimmed_pieces find_rule
    read_group read_intervention format_name format_children check_marks read_format read_rule_node
    read_node read_nodes parse_rules unknown_id build_reg all_declared check_draft parse_integral
    parse_bool parse_rule_match rule_attribute rule_attributes parse_ids unless_attributes
    trigger_attributes activation_attributes intervention_attributes read_trigger read_activation
    read_intervention_rule read_unless read_text_child read_child read_children read_rule push_rule
    add_child attach attach_all insert_normally insert_rule Helper.parse_integral
parsed = refl

calm : Level (λ id rl. rl.unless_rule.id ≡ 0) 0 cfg.group_rules
unfolding beq before is_empty isspace isdigit lookup assign emplace contains insert insert_all
    skip_space read_sign read_digits stoul trim_front trim split trim_all trimmed_pieces find_rule
    read_group read_intervention format_name format_children check_marks read_format read_rule_node
    read_node read_nodes parse_rules unknown_id build_reg all_declared check_draft parse_integral
    parse_bool parse_rule_match rule_attribute rule_attributes parse_ids unless_attributes
    trigger_attributes activation_attributes intervention_attributes read_trigger read_activation
    read_intervention_rule read_unless read_text_child read_child read_children read_rule push_rule
    add_child attach attach_all insert_normally insert_rule Helper.parse_integral
calm = (refl, tt)

parse_rules-Placed_example : Placed env cfg
parse_rules-Placed_example =
    parse_rules-Placed env root document no_rules cfg (no_rules-Placed env) parsed

parsed_rules_safe_example : Fails IsForeign (process_log env cfg failing_line start)
parsed_rules_safe_example =
    parsed_rules_safe env root document cfg failing_line start env-MatchesMarks parsed calm

cfg-WellFormed : WellFormed env cfg
unfolding beq before is_empty isspace isdigit lookup assign emplace contains insert insert_all
    skip_space read_sign read_digits stoul trim_front trim split trim_all trimmed_pieces find_rule
    read_group read_intervention format_name format_children check_marks read_format read_rule_node
    read_node read_nodes parse_rules unknown_id build_reg all_declared check_draft parse_integral
    parse_bool parse_rule_match rule_attribute rule_attributes parse_ids unless_attributes
    trigger_attributes activation_attributes intervention_attributes read_trigger read_activation
    read_intervention_rule read_unless read_text_child read_child read_children read_rule push_rule
    add_child attach attach_all insert_normally insert_rule Helper.parse_integral
cfg-WellFormed = record {
  formats = tt;
  std_top = ((refl, refl), tt);
  std_linked =
      (((refl, refl), ((tt, refl), tt)), (((tt, refl), tt), (tt, tt, tt), (tt, tt, tt)), tt);
  group_top = ((tt, refl), tt);
  group_linked = (tt, tt, tt);
}

process_log_safe_example : Fails IsForeign (process_log env cfg failing_line start)
process_log_safe_example =
    process_log_safe env cfg failing_line start env-MatchesMarks cfg-WellFormed

process_log_total_example : process_log env cfg failing_line start ≢ err too_deep
process_log_total_example = process_log_total env cfg failing_line start
