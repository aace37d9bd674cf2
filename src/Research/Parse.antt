-- ===== src/Research/Parse.antt =====
-- `parse_rules` of src/research/rule.cpp, from the parsed XML tree on.
pub mod Errors
pub mod Draft
pub mod Check
pub mod Insert
mod Kept
pub mod Placed
pub mod Sound
use ctguard.Base.{
  ℕ, Bool, true, false, not, ◌&&◌, ◌||◌, List, [], ◌∷◌, ◌++◌, Option, none, some, ◌==◌,
  if◌then◌else◌, Bytes, codes, beq, is_empty, length, insert, contains, text_key, Outcome, ok, err,
  ◌>>=◌, ◌>>◌, guard, or_err,
}
use ctguard.Xml.Node.{Attributes, NodeInfo, Nodes, nil, cons}
use ctguard.Research.Types.{Format, RuleCfg}
use ctguard.Research.Env.{Env}
use ctguard.Research.Text.{trim, trimmed_pieces}
use Errors.{
  RuleError, bad_root, bad_attribute, bad_child, empty_text, reserved_group, missing_name,
  missing_regex, bad_marks, undefined_read, Parsed, no_attributes,
}
use Draft.{read_rule}
use Check.{check_draft}
use Insert.{insert_rule}

abbrev is_nil : Nodes → Bool
is_nil nil = true
is_nil (cons n children siblings) = false

abbrev starts_with_bang : Bytes → Bool
starts_with_bang [] = false
starts_with_bang (c ∷ cs) = c == b'!'

-- The branch `node.name() == "group"`.
unfoldable pub read_group : NodeInfo → Nodes → RuleCfg → Parsed RuleCfg
read_group node children rules = do
  no_attributes node
  guard (is_nil children) bad_child
  v ← or_err (trim node.value) undefined_read
  guard (not (is_empty v)) empty_text
  guard (not (starts_with_bang v)) reserved_group
  ok (record rules { groups = insert v rules.groups })

-- The branch `node.name() == "intervention"`.
unfoldable pub read_intervention : NodeInfo → Nodes → RuleCfg → Parsed RuleCfg
read_intervention node children rules = do
  no_attributes node
  guard (is_nil children) bad_child
  v ← or_err (trim node.value) undefined_read
  guard (not (is_empty v)) empty_text
  ok (record rules { interventions = insert v rules.interventions })

-- The attributes of a `format` node: its name.
unfoldable pub format_name : Attributes → Bytes → Parsed Bytes
format_name [] name = ok name
format_name ((k, v) ∷ kvs) name =
    let rest = format_name kvs v in if beq k (codes "name") then rest else err bad_attribute

-- The children of a `format` node: the text of its expression, and its fields.
unfoldable pub format_children : Nodes → Bytes → List Bytes → Parsed (Bytes × List Bytes)
format_children nil ireg fields = ok (ireg, fields)
format_children (cons node children siblings) ireg fields =
    let with_regex = format_children siblings (ireg ++ node.value) fields in
    let with_fields = λ (ps : List Bytes). format_children siblings ireg (fields ++ ps) in
    if beq node.name (codes "regex")
    then no_attributes node >> with_regex
    else if beq node.name (codes "fields")
    then (no_attributes node >> (or_err (trimmed_pieces node.value) undefined_read >>= with_fields))
    else err bad_child

-- `f.m_reg = ireg`, and the number of its groups.
unfoldable pub check_marks : Env → Bytes → List Bytes → Parsed (Unit {0})
check_marks env ireg fields = elim (env.mark_count ireg) [
  | none ↦ err bad_marks
  | some n ↦ guard (n == length fields) bad_marks
]

-- The branch `node.name() == "format"`.
unfoldable pub read_format : Env → NodeInfo → Nodes → RuleCfg → Parsed RuleCfg
unfolding check_marks
read_format env node children rules = do
  name ← format_name node.attributes []
  (ireg, fields) ← format_children children [] []
  guard (not (is_empty name)) missing_name
  guard (not (is_empty ireg)) missing_regex
  check_marks env ireg fields
  ok (record rules {
    formats = rules.formats ++ (record { name = name; reg = ireg; fields = fields } ∷ []);
  })

-- The branch `node.name() == "rule"`.
unfoldable pub read_rule_node : Env → NodeInfo → Nodes → RuleCfg → Parsed RuleCfg
read_rule_node env node children rules = do
  draft ← read_rule rules.interventions node children
  ex ← check_draft env rules draft
  insert_rule ex draft.unless_id rules

-- One child of the root.
unfoldable pub read_node : Env → NodeInfo → Nodes → RuleCfg → Parsed RuleCfg
read_node env node children rules =
    if beq node.name (codes "group")
    then read_group node children rules
    else if beq node.name (codes "intervention")
    then read_intervention node children rules
    else if beq node.name (codes "format")
    then read_format env node children rules
    else if beq node.name (codes "rule")
    then read_rule_node env node children rules
    else err bad_child

unfoldable pub read_nodes : Env → Nodes → RuleCfg → Parsed RuleCfg
read_nodes env nil rules = ok rules
read_nodes env (cons node children siblings) rules =
    read_node env node children rules >>= read_nodes env siblings

-- `parse_rules`, given the root node that the XML parser returns.
unfoldable pub parse_rules : Env → NodeInfo → Nodes → RuleCfg → Parsed RuleCfg
unfolding read_nodes
parse_rules env root children rules = do
  guard (beq root.name (codes "rule_group")) bad_root
  no_attributes root
  read_nodes env children rules
