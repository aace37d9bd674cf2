-- ===== src/Tests/Lines.antt =====
-- Log lines through the parsed rules, and the theorem on `processing_task` applied.
use ctguard.Base.{
  ok, ◌≡◌, refl, codes, false, ℕ, Bytes, Option, some, none, Bool, true, List, [], ◌∷◌, beq, before,
  is_empty, isspace, isdigit, lookup, assign, emplace, contains, insert, insert_all, ◌++◌,
}
use ctguard.Helper.{skip_space, read_sign, read_digits, stoul}
use ctguard.Research.Text.{trim_front, trim, split, trim_all, trimmed_pieces}
use ctguard.Research.Rule.{find_rule}
use ctguard.Research.Parse.{
  read_group, read_intervention, format_name, format_children, check_marks, read_format,
  read_rule_node, read_node, read_nodes, parse_rules,
}
use ctguard.Research.Parse.Check.{unknown_id, build_reg, all_declared, check_draft}
use ctguard.Research.Parse.Draft.{
  parse_integral, parse_bool, parse_rule_match, rule_attribute, rule_attributes, parse_ids,
  unless_attributes, trigger_attributes, activation_attributes, intervention_attributes,
  read_trigger, read_activation, read_intervention_rule, read_unless, read_text_child, read_child,
  read_children, read_rule,
}
use ctguard.Research.Parse.Insert.{
  push_rule, add_child, attach, attach_all, insert_normally, insert_rule,
}
use ctguard.Research.Event.{event_of, add_groups, update}
use ctguard.Research.Check.{
  save, drop_old, has_value, trigger_logs, count_same, judge_saved, check_saved, check_activation,
  check_unless, group_matches, match_value, scan, triggers_match, collect, subject, search_reg,
  check_regex, asks_something, check_found, check_traits, check_conditions, check_rule,
}
use ctguard.Research.Process.{
  assign_all, update_event, erase_same, update_state, add_matching, gather, better, pick, best,
  go_on, descend, check_top_rules, fill, format_log, process_log,
}
use ctguard.Helper
use ctguard.Research.Env.{World}
use ctguard.Research.Types.{Event, SourceEvent, default_event}
use ctguard.Research.Tasks.Processing.{Pipes, is_kill, processing_task}
use ctguard.Research.Tasks.Processing.Forward.{process_all}
use ctguard.Research.Tasks.Processing.Forward.{worthy, all_orders}
use ctguard.Research.Tasks.Output.{output_task, output_ends}
use ctguard.Research.Tasks.Input.{
  Reception, failed, received, ends_burst, admit, handle, receive, input_task,
}
use ctguard.Research.Tasks.Shutdown.{shutdown_complete, kill_order}
use ctguard.Tests.Sample.{env, config, line, start}
use ctguard.Tests.Rules.{cfg, ok_or}

abbrev lines : List SourceEvent
lines = line (codes "hello") ∷ line (codes "fail") ∷ line (codes "fail") ∷ []

abbrev outcome : List Event × World
outcome = ok_or ([], start) (process_all env cfg lines start)

abbrev idle : Pipes
idle = record { world = start; alerts = []; interventions = []; ended = false }

abbrev ids : List Event → List ℕ
ids [] = []
ids (e ∷ es) = e.rule_id ∷ ids es

-- The first line matches rule 1 and then rule 4 below it, which waits; the second "fail" is the
-- first that rule 3 finds to be one of two.
ids_of_lines : ids outcome.0 ≡ 1 ∷ 2 ∷ 3 ∷ []
unfolding process_all beq before is_empty isspace isdigit lookup assign emplace contains insert
    insert_all skip_space read_sign read_digits stoul trim_front trim split trim_all trimmed_pieces
    find_rule read_group read_intervention format_name format_children check_marks read_format
    read_rule_node read_node read_nodes parse_rules unknown_id build_reg all_declared check_draft
    parse_integral parse_bool parse_rule_match rule_attribute rule_attributes parse_ids
    unless_attributes trigger_attributes activation_attributes intervention_attributes read_trigger
    read_activation read_intervention_rule read_unless read_text_child read_child read_children
    read_rule push_rule add_child attach attach_all insert_normally insert_rule
    Helper.parse_integral event_of add_groups update save drop_old has_value trigger_logs count_same
    judge_saved check_saved check_activation check_unless group_matches match_value scan
    triggers_match collect subject search_reg check_regex asks_something check_found check_traits
    check_conditions check_rule assign_all update_event erase_same update_state add_matching gather
    better pick best go_on descend check_top_rules fill format_log process_log
ids_of_lines = refl

abbrev one_line : Event × World
one_line = ok_or (default_event, start) (process_log env cfg (line (codes "fail")) start)

one_processed : process_log env cfg (line (codes "fail")) start ≡ ok one_line
unfolding beq before is_empty isspace isdigit lookup assign emplace contains insert insert_all
    skip_space read_sign read_digits stoul trim_front trim split trim_all trimmed_pieces find_rule
    read_group read_intervention format_name format_children check_marks read_format read_rule_node
    read_node read_nodes parse_rules unknown_id build_reg all_declared check_draft parse_integral
    parse_bool parse_rule_match rule_attribute rule_attributes parse_ids unless_attributes
    trigger_attributes activation_attributes intervention_attributes read_trigger read_activation
    read_intervention_rule read_unless read_text_child read_child read_children read_rule push_rule
    add_child attach attach_all insert_normally insert_rule Helper.parse_integral event_of
    add_groups update save drop_old has_value trigger_logs count_same judge_saved check_saved
    check_activation check_unless group_matches match_value scan triggers_match collect subject
    search_reg check_regex asks_something check_found check_traits check_conditions check_rule
    assign_all update_event erase_same update_state add_matching gather better pick best go_on
    descend check_top_rules fill format_log process_log
one_processed = refl

-- Each datagram is a message; an empty one holds none.
abbrev decode : Bytes → Option SourceEvent
decode [] = none
decode (c ∷ cs) = some (line (c ∷ cs))

abbrev datagrams : List (Reception × Bool)
datagrams =
    (received (codes "hello"), true)
    ∷ (failed, true)
    ∷ (received (codes "fail"), true)
    ∷ (received (codes "fail"), true)
    ∷ (received [], false)
    ∷ []

stopped : (receive decode datagrams).1 ≡ true
unfolding receive handle admit is_kill ends_burst is_empty beq
stopped = refl

received_lines : process_all env cfg (receive decode datagrams).0 start ≡ ok outcome
unfolding process_all receive handle admit is_kill ends_burst beq before is_empty isspace isdigit
    lookup assign emplace contains insert insert_all skip_space read_sign read_digits stoul
    trim_front trim split trim_all trimmed_pieces find_rule read_group read_intervention format_name
    format_children check_marks read_format read_rule_node read_node read_nodes parse_rules
    unknown_id build_reg all_declared check_draft parse_integral parse_bool parse_rule_match
    rule_attribute rule_attributes parse_ids unless_attributes trigger_attributes
    activation_attributes intervention_attributes read_trigger read_activation
    read_intervention_rule read_unless read_text_child read_child read_children read_rule push_rule
    add_child attach attach_all insert_normally insert_rule Helper.parse_integral event_of
    add_groups update save drop_old has_value trigger_logs count_same judge_saved check_saved
    check_activation check_unless group_matches match_value scan triggers_match collect subject
    search_reg check_regex asks_something check_found check_traits check_conditions check_rule
    assign_all update_event erase_same update_state add_matching gather better pick best go_on
    descend check_top_rules fill format_log process_log
received_lines = refl

shutdown_complete_example :
    (p : Pipes) × (processing_task env config cfg (input_task decode datagrams) idle ≡ ok p)
    × (p.ended ≡ true)
    × (p.interventions ≡ all_orders (worthy config outcome.0) ++ (kill_order ∷ []))
    × ((output_task config p.alerts).0 ≡ worthy config outcome.0)
    × (output_ends p.alerts ≡ true)
shutdown_complete_example =
    shutdown_complete env config cfg decode datagrams start stopped received_lines
