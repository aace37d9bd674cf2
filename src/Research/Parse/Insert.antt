-- ===== src/Research/Parse/Insert.antt =====
-- "insert rule normally" and "insert rule for unless trigger" in `parse_rules`.
use ctguard.Base.{
  ℕ, not, ◌||◌, List, [], ◌∷◌, Option, none, some, ◌==◌, if◌then◌else◌, is_empty, ok, err, ◌>>=◌,
}
use ctguard.Research.Types.{RuleInfo, Rules, nil, cons, RuleCfg}
use ctguard.Research.Parse.Errors.{RuleError, no_such_parent, no_such_unless, Parsed}

-- `emplace_back` of a rule with no children.
unfoldable pub push_rule : RuleInfo → Rules → Rules
push_rule ex nil = cons ex nil nil
push_rule ex (cons r children siblings) = cons r children (push_rule ex siblings)

-- `find_rule(rules, id)->m_children.emplace_back(ex)`, or `none` where `find_rule` is null.
unfoldable pub add_child : Rules → ℕ → RuleInfo → Option Rules
unfolding push_rule
add_child nil id ex = none
add_child (cons r children siblings) id ex =
    if r.id == id
    then some (cons r (push_rule ex children) siblings)
    else elim (add_child children id ex) [
      | some children' ↦ some (cons r children' siblings)
      | none ↦ elim (add_child siblings id ex) [
        | some siblings' ↦ some (cons r children siblings')
        | none ↦ none
      ]
    ]

-- One parent: looked for among the standard rules, then among the group rules.
unfoldable pub attach : RuleError → RuleInfo → ℕ → RuleCfg → Parsed RuleCfg
attach missing ex id rules = elim (add_child rules.std_rules id ex) [
  | some std ↦ ok (record rules { std_rules = std })
  | none ↦ elim (add_child rules.group_rules id ex) [
    | some grouped ↦ ok (record rules { group_rules = grouped })
    | none ↦ err missing
  ]
]

unfoldable pub attach_all : RuleInfo → List ℕ → RuleCfg → Parsed RuleCfg
attach_all ex [] rules = ok rules
attach_all ex (id ∷ ids) rules = attach no_such_parent ex id rules >>= attach_all ex ids

unfoldable pub insert_normally : RuleInfo → RuleCfg → Parsed RuleCfg
unfolding attach_all
insert_normally ex rules =
    if not (is_empty ex.trigger_group) || not (is_empty ex.activation_group.group_name)
    then ok (record rules { group_rules = push_rule ex rules.group_rules })
    else if is_empty ex.parent_ids
    then ok (record rules { std_rules = push_rule ex rules.std_rules })
    else attach_all ex ex.parent_ids rules

unfoldable pub insert_rule : RuleInfo → ℕ → RuleCfg → Parsed RuleCfg
unfolding insert_normally
insert_rule ex unless_id rules = insert_normally ex rules >>= λ placed.
    if not (unless_id == 0) then attach no_such_unless ex unless_id placed else ok placed
