-- ===== src/Tests/Sample.antt =====
-- A small set of rules, as the XML parser hands it over, and what a run on it needs.
use ctguard.Base.{
  ℕ, false, true, List, [], ◌∷◌, Option, none, some, Bytes, codes, beq, if◌then◌else◌, arith,
}
use ctguard.Xml.Node.{Attributes, NodeInfo, Nodes, nil, cons}
use ctguard.Research.Types.{SourceEvent, Event, default_event, RuleInfo, exact}
use ctguard.Research.Env.{Env, MatchesMarks, World}
use ctguard.Research.Config.{Config, default_config}
use ctguard.Research.Parse.Draft.{default_rule}

-- Expressions are `(.*)`, with one group, `(`, which is none, and texts that match themselves.
abbrev marks_of : Bytes → Option ℕ
marks_of p = if beq p (codes "(.*)") then some 1 else if beq p (codes "(") then none else some 0

abbrev find : Bytes → Bytes → Option (List Bytes)
find p s =
    if beq p (codes "(.*)")
    then some (s ∷ [])
    else if beq p (codes "(")
    then none
    else if beq p s
    then some []
    else none

-- A clock that goes on with each reading.
abbrev pub env : Env
env = record {
  mark_count = marks_of;
  regex_search = find;
  regex_match = find;
  clock = λ n. n;
  format_time = λ n. [];
}

pub env-MatchesMarks : MatchesMarks env
env-MatchesMarks = record {
  search_marks = λ p s gs e. ground arith;
  match_marks = λ p s gs e. ground arith;
}

abbrev text : NodeInfo → Nodes → Nodes
text n rest = cons n nil rest

abbrev node : Bytes → Attributes → Bytes → NodeInfo
node name attributes value = record { name = name; attributes = attributes; value = value }

abbrev pub root : NodeInfo
root = node (codes "rule_group") [] []

-- Rule 1 takes every line, rule 2 the line "fail", which rule 3 counts; rule 4 waits for rule 2.
abbrev pub document : Nodes
document = text (node (codes "group") [] (codes "g")) (
    text (node (codes "intervention") [] (codes "drop")) (
      cons (node (codes "rule") ((codes "id", codes "1") ∷ (codes "priority", codes "1") ∷ []) [])
        (text (node (codes "regex") [] (codes "(.*)"))
          (text (node (codes "fields") [] (codes "line")) nil))
        (cons
          (node (codes "rule") ((codes "id", codes "2") ∷ (codes "priority", codes "5") ∷ []) [])
          (text (node (codes "if_rule") [] (codes "1")) (
            text (node (codes "regex") [] (codes "fail")) (
              text (node (codes "group") [] (codes "g")) (
                text
                  (node (codes "intervention")
                    ((codes "name", codes "drop") ∷ (codes "field", codes "line") ∷ []) [])
                  nil))))
          (cons
            (node (codes "rule") ((codes "id", codes "3") ∷ (codes "priority", codes "7") ∷ []) [])
            (text
              (node (codes "activation_group")
                ((codes "time", codes "60") ∷ (codes "rate", codes "2") ∷ []) (codes "g"))
              (text (node (codes "if_group") [] (codes "g")) nil))
            (cons
              (node (codes "rule") ((codes "id", codes "4") ∷ (codes "priority", codes "9") ∷ [])
                [])
              (text (node (codes "if_rule") [] (codes "1")) (
                text (node (codes "unless_rule") ((codes "timeout", codes "30") ∷ []) (codes "2"))
                  nil))
              nil)))))

abbrev pub line : Bytes → SourceEvent
line message = record {
  hostname = codes "host";
  source_program = codes "sshd";
  source_domain = codes "auth";
  message = message;
  control_message = false;
  time_scanned = 0;
  time_send = 0;
}

abbrev pub start : World
start = record { states = []; ticks = 0 }

abbrev pub config : Config
config = record default_config {
  mail = true;
  log_priority = 3;
  mail_interval = 10;
  mail_sample_time = 5;
  mail_max_sample_count = 4;
  mail_priority = 4;
  mail_instant = 8;
}

abbrev pub alert : ℕ → Event
alert priority = record default_event { priority = priority }

-- The rules 2, 3 and 4 as the parser stores them.
abbrev pub rule_2 : RuleInfo
rule_2 = record default_rule {
  id = 2;
  parent_ids = 1 ∷ [];
  priority = 5;
  trigger_fields = (codes "line", (exact, codes "fail")) ∷ [];
}

abbrev pub rule_3 : RuleInfo
rule_3 = record default_rule {
  id = 3;
  priority = 7;
  activation_group = record { time = 60; rate = 2; group_name = codes "g"; reset = false };
}

abbrev pub rule_4 : RuleInfo
rule_4 = record default_rule {
  id = 4;
  parent_ids = 1 ∷ [];
  priority = 9;
  unless_rule = record { id = 2; timeout = 30 };
}

abbrev pub failing_line : SourceEvent
failing_line = line (codes "fail")
