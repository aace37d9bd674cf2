-- ===== src/Research/Parse/Draft.antt =====
-- The branch `node.name() == "rule"` of `parse_rules`, up to the checks: what the attributes and
-- the children of a `rule` node set.
use ctguard.Base.{
  ℕ, Bool, true, false, not, ◌||◌, List, [], ◌∷◌, ◌++◌, none, ltb, leb, ◌==◌, if◌then◌else◌, Bytes,
  codes, beq, is_empty, emplace, contains, insert_all, length, text_key, ok, err, ◌>>=◌, ◌>>◌,
  guard, or_err, relabel,
}
use ctguard.Helper.{stoul, max_int, max_short}
use ctguard.Helper
use ctguard.Xml.Node.{Attributes, NodeInfo, Nodes, nil, cons}
use ctguard.Research.Types.{
  RuleInfo, RuleMatch, exact, regex, empty, ActivationGroup, UnlessRule, InterventionRule,
}
use ctguard.Research.Text.{trimmed_pieces}
use ctguard.Research.Parse.Errors.{
  bad_attribute, bad_child, missing_name, bad_number, bad_flag, bad_match, missing_time,
  missing_rate, low_rate, missing_field, unknown_intervention, undefined_read, Parsed,
  no_attributes,
}

-- The variables of the branch: the rule, the id of its `unless_rule`, and the expression's text.
pub record RuleDraft : Type 0 where
  pub ex : RuleInfo
  pub unless_id : ℕ
  pub ireg : Bytes

-- `rule() = default`: a missing priority is `static_cast<priority_t>(-1)`.
abbrev pub default_rule : RuleInfo
default_rule = record {
  id = 0;
  parent_ids = [];
  priority = max_short;
  always_alert = false;
  description = [];
  groups = [];
  reg = none;
  regex_fields = [];
  trigger_group = [];
  trigger_fields = [];
  trigger_traits = [];
  activation_group = record { time = 0; rate = 0; group_name = []; reset = false };
  same_field = [];
  unless_rule = record { id = 0; timeout = 0 };
  interventions = [];
}

-- `parse_integral<T>(name, content)` of rule.cpp.
unfoldable pub parse_integral : ℕ → Bytes → Parsed ℕ
parse_integral max content = do
  (result_orig, pos) ← relabel bad_number (stoul content)
  guard (pos == length content) bad_number
  guard (leb result_orig max) bad_number
  ok result_orig

-- `parse_bool(name, content)` of rule.cpp.
unfoldable pub parse_bool : Bytes → Parsed Bool
parse_bool content =
    if beq content (codes "true") || beq content (codes "TRUE") || beq content (codes "True")
    then ok true
    else if beq content (codes "false")
        || beq content (codes "FALSE")
        || beq content (codes "False")
    then ok false
    else err bad_flag

unfoldable pub parse_rule_match : Bytes → Parsed RuleMatch
parse_rule_match value =
    if beq value (codes "exact")
    then ok exact
    else if beq value (codes "regex")
    then ok regex
    else if beq value (codes "empty")
    then ok empty
    else err bad_match

-- The attributes of a `rule` node.
unfoldable pub rule_attribute : Bytes → Bytes → RuleInfo → Parsed RuleInfo
unfolding parse_integral
rule_attribute k v ex =
    if beq k (codes "id")
    then (parse_integral max_int v >>= λ n. ok (record ex { id = n }))
    else if beq k (codes "priority")
    then (parse_integral max_short v >>= λ n. ok (record ex { priority = n }))
    else if beq k (codes "always_alert")
    then (relabel bad_flag (Helper.parse_bool v) >>= λ b. ok (record ex { always_alert = b }))
    else err bad_attribute

unfoldable pub rule_attributes : Attributes → RuleInfo → Parsed RuleInfo
rule_attributes [] ex = ok ex
rule_attributes ((k, v) ∷ kvs) ex = rule_attribute k v ex >>= rule_attributes kvs

-- `if_rule`: each trimmed piece is the id of a parent.
unfoldable pub parse_ids : List Bytes → List ℕ → Parsed (List ℕ)
parse_ids [] ids = ok ids
parse_ids (p ∷ ps) ids =
    relabel bad_number (Helper.parse_integral max_int p) >>= λ n. parse_ids ps (ids ++ (n ∷ []))

unfoldable pub unless_attributes : Attributes → ℕ → Parsed ℕ
unless_attributes [] timeout = ok timeout
unless_attributes ((k, v) ∷ kvs) timeout =
    if beq k (codes "timeout")
    then (parse_integral max_short v >>= unless_attributes kvs)
    else err bad_attribute

-- The attributes of `if_field` and `if_trait`.
unfoldable pub trigger_attributes : Attributes → Bytes → RuleMatch → Parsed (Bytes × RuleMatch)
trigger_attributes [] name rm = ok (name, rm)
trigger_attributes ((k, v) ∷ kvs) name rm =
    let named = trigger_attributes kvs v rm in
    let matched = λ (m : RuleMatch). trigger_attributes kvs name m in
    if beq k (codes "name")
    then named
    else if beq k (codes "match")
    then (parse_rule_match v >>= matched)
    else err bad_attribute

unfoldable pub activation_attributes : Attributes → ActivationGroup → Parsed ActivationGroup
activation_attributes [] ag = ok ag
activation_attributes ((k, v) ∷ kvs) ag =
    let timed = λ (n : ℕ). activation_attributes kvs (record ag { time = n }) in
    let rated = λ (n : ℕ). activation_attributes kvs (record ag { rate = n }) in
    let flagged = λ (b : Bool). activation_attributes kvs (record ag { reset = b }) in
    if beq k (codes "time")
    then (parse_integral max_short v >>= timed)
    else if beq k (codes "rate")
    then (parse_integral max_short v >>= rated)
    else if beq k (codes "reset")
    then (parse_bool v >>= flagged)
    else err bad_attribute

unfoldable pub intervention_attributes : Attributes → InterventionRule → Parsed InterventionRule
intervention_attributes [] ir = ok ir
intervention_attributes ((k, v) ∷ kvs) ir =
    let named = intervention_attributes kvs (record ir { name = v }) in
    let fielded = intervention_attributes kvs (record ir { field = v }) in
    let flagged =
      λ (b : Bool). intervention_attributes kvs (record ir { ignore_empty_field = b }) in
    if beq k (codes "name")
    then named
    else if beq k (codes "field")
    then fielded
    else if beq k (codes "ignore_empty_field")
    then (parse_bool v >>= flagged)
    else err bad_attribute

unfoldable pub read_trigger : NodeInfo → Parsed (Bytes × RuleMatch)
unfolding trigger_attributes
read_trigger node = do
  (name, rm) ← trigger_attributes node.attributes [] exact
  guard (not (is_empty name)) missing_name
  ok (name, rm)

unfoldable pub read_activation : NodeInfo → Parsed ActivationGroup
unfolding activation_attributes
read_activation node = do
  ag ←
      activation_attributes node.attributes
        (record { time = 0; rate = 0; group_name = []; reset = false })
  guard (not (ag.time == 0)) missing_time
  guard (not (ag.rate == 0)) missing_rate
  guard (not (ltb ag.rate 2)) low_rate
  ok (record ag { group_name = node.value })

unfoldable pub read_intervention_rule : List Bytes → NodeInfo → Parsed InterventionRule
unfolding intervention_attributes
read_intervention_rule interventions node = do
  ir ←
      intervention_attributes node.attributes
        (record { name = []; field = []; ignore_empty_field = false })
  guard (not (is_empty ir.name)) missing_name
  guard (not (is_empty ir.field)) missing_field
  guard (contains ir.name interventions) unknown_intervention
  ok ir

unfoldable pub read_unless : NodeInfo → Parsed UnlessRule
read_unless node = do
  timeout ← unless_attributes node.attributes 0
  id ← parse_integral max_int node.value
  ok (record { id = id; timeout = timeout })

abbrev with_rule : RuleDraft → RuleInfo → Parsed RuleDraft
with_rule d ex = ok (record d { ex = ex })

-- The children that carry text alone.
unfoldable pub read_text_child : NodeInfo → RuleDraft → Parsed RuleDraft
unfolding parse_ids
read_text_child node d =
    let pieces = or_err (trimmed_pieces node.value) undefined_read in
    if beq node.name (codes "regex")
    then ok (record d { ireg = d.ireg ++ node.value })
    else if beq node.name (codes "fields")
    then (pieces >>= λ ps. with_rule d (record (d.ex) { regex_fields = d.ex.regex_fields ++ ps }))
    else if beq node.name (codes "description")
    then with_rule d (record (d.ex) { description = d.ex.description ++ node.value })
    else if beq node.name (codes "if_rule")
    then (pieces >>= λ ps.
        parse_ids ps d.ex.parent_ids >>= λ ids. with_rule d (record (d.ex) { parent_ids = ids }))
    else if beq node.name (codes "group")
    then (pieces >>= λ ps. with_rule d (record (d.ex) { groups = insert_all ps d.ex.groups }))
    else if beq node.name (codes "if_group")
    then with_rule d (record (d.ex) { trigger_group = node.value })
    else if beq node.name (codes "same_field")
    then with_rule d (record (d.ex) { same_field = node.value })
    else err bad_child

abbrev is_text_child : Bytes → Bool
is_text_child name =
    beq name (codes "regex")
    || beq name (codes "fields")
    || beq name (codes "description")
    || beq name (codes "if_rule")
    || beq name (codes "group")
    || beq name (codes "if_group")
    || beq name (codes "same_field")

-- One child of a `rule` node; `interventions` are the names declared so far.
unfoldable pub read_child : List Bytes → NodeInfo → RuleDraft → Parsed RuleDraft
unfolding read_text_child
read_child interventions node d =
    if is_text_child node.name
    then no_attributes node >> read_text_child node d
    else if beq node.name (codes "unless_rule")
    then (read_unless node >>= λ ur.
        ok (record d { ex = record (d.ex) { unless_rule = ur }; unless_id = ur.id }))
    else if beq node.name (codes "if_field")
    then (read_trigger node >>= λ t.
        with_rule d
          (record (d.ex) { trigger_fields = emplace t.0 (t.1, node.value) d.ex.trigger_fields }))
    else if beq node.name (codes "if_trait")
    then (read_trigger node >>= λ t.
        with_rule d
          (record (d.ex) { trigger_traits = emplace t.0 (t.1, node.value) d.ex.trigger_traits }))
    else if beq node.name (codes "activation_group")
    then (read_activation node >>= λ ag. with_rule d (record (d.ex) { activation_group = ag }))
    else if beq node.name (codes "intervention")
    then (read_intervention_rule interventions node >>= λ ir.
        with_rule d (record (d.ex) { interventions = d.ex.interventions ++ (ir ∷ []) }))
    else err bad_child

unfoldable pub read_children : List Bytes → Nodes → RuleDraft → Parsed RuleDraft
read_children interventions nil d = ok d
read_children interventions (cons node children siblings) d =
    read_child interventions node d >>= read_children interventions siblings

unfoldable pub read_rule : List Bytes → NodeInfo → Nodes → Parsed RuleDraft
unfolding rule_attributes read_children
read_rule interventions node children = do
  ex ← rule_attributes node.attributes default_rule
  read_children interventions children (record { ex = ex; unless_id = 0; ireg = [] })
