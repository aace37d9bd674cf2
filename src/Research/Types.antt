-- ===== src/Research/Types.antt =====
-- The data of src/research/{event,rule,research}.hpp and src/libs/source_event.hpp.
-- `priority_t`, the rates and the times of rules are 16-bit numbers, a rule's id is a 32-bit one:
-- plain numbers here, with the ranges that the parser checks.
use ctguard.Base.{ℕ, Bool, false, List, [], Option, Bytes}

pub record SourceEvent : Type 0 where
  pub hostname : Bytes
  pub source_program : Bytes
  pub source_domain : Bytes
  pub message : Bytes
  pub control_message : Bool
  pub time_scanned : ℕ
  pub time_send : ℕ

pub record InterventionRule : Type 0 where
  pub name : Bytes
  pub field : Bytes
  pub ignore_empty_field : Bool

-- `std::map<std::string, std::string>`, in key order.
abbrev pub Fields : Type 0
Fields = List (Bytes × Bytes)

pub record Event : Type 0 where
  pub logstr : Bytes
  pub description : Bytes
  pub control_message : Bool
  pub always_alert : Bool
  pub fields : Fields
  pub traits : Fields
  pub groups : List Bytes
  pub priority : ℕ
  pub rule_id : ℕ
  pub interventions : List InterventionRule

-- `event() = default`
abbrev pub default_event : Event
default_event = record {
  logstr = [];
  description = [];
  control_message = false;
  always_alert = false;
  fields = [];
  traits = [];
  groups = [];
  priority = 0;
  rule_id = 0;
  interventions = [];
}

pub record ActivationGroup : Type 0 where
  pub time : ℕ
  pub rate : ℕ
  pub group_name : Bytes
  pub reset : Bool

pub record UnlessRule : Type 0 where
  pub id : ℕ
  pub timeout : ℕ

pub data RuleMatch : Type 0 where
  exact regex empty : RuleMatch

abbrev pub Triggers : Type 0
Triggers = List (Bytes × (RuleMatch × Bytes))

-- A `rule` without its children. A `std::regex` is kept as the text that it was built from.
pub record RuleInfo : Type 0 where
  pub id : ℕ
  pub parent_ids : List ℕ
  pub priority : ℕ
  pub always_alert : Bool
  pub description : Bytes
  pub groups : List Bytes
  pub reg : Option Bytes
  pub regex_fields : List Bytes
  pub trigger_group : Bytes
  pub trigger_fields : Triggers
  pub trigger_traits : Triggers
  pub activation_group : ActivationGroup
  pub same_field : Bytes
  pub unless_rule : UnlessRule
  pub interventions : List InterventionRule

-- `std::vector<rule>`, each rule with the vector of its children: `cons rule children siblings`.
pub data Rules : Type 0 where
  nil : Rules
  cons : RuleInfo → Rules → Rules → Rules

pub record Format : Type 0 where
  pub name : Bytes
  pub reg : Bytes
  pub fields : List Bytes

pub record RuleCfg : Type 0 where
  pub std_rules : Rules
  pub group_rules : Rules
  pub groups : List Bytes
  pub formats : List Format
  pub interventions : List Bytes

-- `std::multimap<std::time_t, event>`, in time order.
abbrev pub Saved : Type 0
Saved = List (ℕ × Event)

pub record RuleState : Type 0 where
  pub mevents : Saved
  pub unless_triggered : ℕ
  pub unless_timeout : ℕ
  pub unless_event : Event

abbrev pub fresh_state : RuleState
fresh_state = record {
  mevents = [];
  unless_triggered = 0;
  unless_timeout = 0;
  unless_event = default_event;
}

abbrev pub States : Type 0
States = List (ℕ × RuleState)
