-- ===== src/Tests/Checks.antt =====
-- Runs of the checks of rules, and their theorems applied.
use ctguard.Base.{
  ok, ◌≡◌, ◌≢◌, ◌↔◌, refl, codes, List, [], ◌∷◌, true, inl, some, none, All, Elem, length, leb,
  arith, ◌+◌, ◌%◌, beq, before, is_empty, lookup, assign, contains, emplace,
}
use ctguard.Research.Event.{event_of, add_groups, update}
use ctguard.Research.Check.{
  Verdict, save, drop_old, has_value, trigger_logs, count_same, judge_saved, check_saved,
  check_activation, check_unless, group_matches, match_value, scan, triggers_match, collect,
  subject, search_reg, check_regex, asks_something, check_found, check_traits, check_conditions,
  check_rule,
}
use ctguard.Research.Process.{
  Candidate, assign_all, update_event, erase_same, update_state, add_matching, gather, better, pick,
  best, go_on, descend, check_top_rules, fill, format_log, process_log,
}
use ctguard.Research.Env.{World}
use ctguard.Research.Types.{Event, fresh_state, Triggers, exact, empty, Saved, nil, cons}
use ctguard.Research.Check.Demands.{Met, triggers_match-Met}
use ctguard.Research.Check.Match.{Demands, check_rule-Demands}
use ctguard.Research.Check.Window.{young, same_events, activation_window, count_same-length}
use ctguard.Research.Process.Select.{Yields, best-IsBest}
use ctguard.Research.Process.Unheard.{check_top_rules-unheard}
use ctguard.Tests.Sample.{env, start, alert, rule_2, rule_3, rule_4}

abbrev failure : Event
failure = record (alert 1) {
  rule_id = 1;
  fields = (codes "line", codes "fail") ∷ [];
  groups = codes "g" ∷ [];
}

abbrev hit : Verdict
hit = record { matches = true; fields = []; traits = [] }

check_failure : check_rule env failure rule_2 start ≡ ok (hit, start)
unfolding beq before is_empty lookup assign contains emplace event_of add_groups update save
    drop_old has_value trigger_logs count_same judge_saved check_saved check_activation check_unless
    group_matches match_value scan triggers_match collect subject search_reg check_regex
    asks_something check_found check_traits check_conditions check_rule assign_all update_event
    erase_same update_state add_matching gather better pick best go_on descend check_top_rules fill
    format_log process_log
check_failure = refl

check_rule-Demands_example :
    ((true ≡ true) ↔ Demands env rule_2 failure start)
    × (start ≡ (check_activation env rule_2 failure start).1)
check_rule-Demands_example =
    check_rule-Demands env failure rule_2 start start hit refl ((tt, tt)) tt check_failure

abbrev wanted : Triggers
wanted = (codes "line", (exact, codes "fail")) ∷ (codes "user", (empty, [])) ∷ []

triggers_match-Met_example :
    (triggers_match env wanted failure.fields ≡ ok true) ↔ All (Met env failure.fields) wanted
triggers_match-Met_example = triggers_match-Met env wanted failure.fields (tt, tt)

abbrev saved : Saved
saved = (5, failure) ∷ (90, failure) ∷ []

abbrev counting : World
counting = record { states = (3, record fresh_state { mevents = saved }) ∷ []; ticks = 100 }

activation_window_example :
    (check_activation env rule_3 failure counting).0.active
    ≡ leb 2 (length (young 60 101 (save 100 failure saved)))
unfolding beq before is_empty lookup assign contains emplace event_of add_groups update save
    drop_old has_value trigger_logs count_same judge_saved check_saved check_activation check_unless
    group_matches match_value scan triggers_match collect subject search_reg check_regex
    asks_something check_found check_traits check_conditions check_rule assign_all update_event
    erase_same update_state add_matching gather better pick best go_on descend check_top_rules fill
    format_log process_log
activation_window_example =
    activation_window env rule_3 failure counting (record fresh_state { mevents = saved }) refl refl
      refl (omega arith, (omega arith, tt))

count_same-length_example :
    (count_same (codes "line") (codes "fail") saved 65535 []).0
    ≡ (65535 + length (same_events (codes "line") (codes "fail") saved)) % 65536
count_same-length_example =
    count_same-length (codes "line") (codes "fail") saved 65535 [] (omega arith)

abbrev matching : List Candidate
matching =
    record { info = rule_3; children = nil; fields = []; traits = [] }
    ∷ record { info = rule_4; children = nil; fields = []; traits = [] }
    ∷ record { info = rule_2; children = nil; fields = []; traits = [] }
    ∷ []

abbrev chosen : Candidate
chosen = record { info = rule_4; children = nil; fields = []; traits = [] }

best-matching : best matching ≡ some chosen
unfolding beq before is_empty lookup assign contains emplace event_of add_groups update save
    drop_old has_value trigger_logs count_same judge_saved check_saved check_activation check_unless
    group_matches match_value scan triggers_match collect subject search_reg check_regex
    asks_something check_found check_traits check_conditions check_rule assign_all update_event
    erase_same update_state add_matching gather better pick best go_on descend check_top_rules fill
    format_log process_log
best-matching = refl

best-IsBest_example : Elem chosen matching × All (Yields 9 4) matching
best-IsBest_example = best-IsBest matching chosen best-matching

abbrev lowest : List Candidate
lowest =
    record {
      info = record rule_2 { id = 4294967295; priority = 0 };
      children = nil;
      fields = [];
      traits = [];
    }
    ∷ []

-- A single matching rule with the priority 0 and the highest id is not chosen.
best-lowest : best lowest ≡ none
unfolding beq before is_empty lookup assign contains emplace event_of add_groups update save
    drop_old has_value trigger_logs count_same judge_saved check_saved check_activation check_unless
    group_matches match_value scan triggers_match collect subject search_reg check_regex
    asks_something check_found check_traits check_conditions check_rule assign_all update_event
    erase_same update_state add_matching gather better pick best go_on descend check_top_rules fill
    format_log process_log
best-lowest = refl

check_top_rules-unheard_example :
    check_top_rules 3 env (alert 1) (cons rule_4 nil nil) start ≢ ok (alert 1, start)
unfolding contains
check_top_rules-unheard_example =
    check_top_rules-unheard 3 env (alert 1) (cons rule_4 nil nil) start (alert 1, start) (inl refl)
