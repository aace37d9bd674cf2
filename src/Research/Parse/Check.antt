-- ===== src/Research/Parse/Check.antt =====
-- "checks for valid rule" in `parse_rules`.
use ctguard.Base.{
  ℕ, Bool, true, false, not, ◌&&◌, ◌||◌, List, [], ◌∷◌, Option, none, some, ◌==◌, if◌then◌else◌,
  Bytes, codes, beq, is_empty, contains, text_key, nat_key, length, ok, err, ◌>>=◌, ◌>>◌, guard,
}
use ctguard.Helper.{max_short}
use ctguard.Research.Types.{RuleInfo, RuleCfg}
use ctguard.Research.Env.{Env}
use ctguard.Research.Rule.{find_rule}
use ctguard.Research.Parse.Errors.{
  bad_marks, missing_id, duplicate_id, missing_priority, parent_and_group, same_field_alone,
  no_such_unless, unless_alone, unknown_trigger_group, unknown_activation_group, unknown_group,
  own_parent, Parsed,
}
use ctguard.Research.Parse.Draft.{RuleDraft}

abbrev is_none {ℓ} : {A : Type ℓ} → Option A → Bool
is_none none = true
is_none (some a) = false

-- Neither vector of rules holds the id.
unfoldable pub unknown_id : RuleCfg → ℕ → Bool
unknown_id rules id =
    is_none (find_rule rules.std_rules id) && is_none (find_rule rules.group_rules id)

-- `!ireg.empty()`: the expression is built, and its groups are counted.
unfoldable pub build_reg : Env → Bytes → RuleInfo → Parsed RuleInfo
build_reg env ireg ex = if is_empty ireg then ok ex else elim (env.mark_count ireg) [
  | none ↦ err bad_marks
  | some n ↦ (guard (n == length ex.regex_fields) bad_marks >> ok (record ex { reg = some ireg }))
]

-- Every group of the rule is declared.
unfoldable pub all_declared : List Bytes → List Bytes → Bool
all_declared groups [] = true
all_declared groups (g ∷ gs) = contains g groups && all_declared groups gs

unfoldable pub check_draft : Env → RuleCfg → RuleDraft → Parsed RuleInfo
unfolding all_declared unknown_id
check_draft env rules d = do
  guard (not (d.ex.id == 0)) missing_id
  guard (unknown_id rules d.ex.id) duplicate_id
  guard (not (d.ex.priority == max_short)) missing_priority
  guard (is_empty d.ex.parent_ids || is_empty d.ex.trigger_group) parent_and_group
  guard (is_empty d.ex.same_field || not (is_empty d.ex.activation_group.group_name))
      same_field_alone
  guard (d.ex.unless_rule.id == 0 || not (unknown_id rules d.ex.unless_rule.id)) no_such_unless
  guard (d.ex.unless_rule.id == 0 || not (is_empty d.ex.parent_ids)) unless_alone
  ex ← build_reg env d.ireg d.ex
  guard
      (is_empty ex.trigger_group
        || contains ex.trigger_group rules.groups
        || beq ex.trigger_group (codes "!ALWAYS"))
      unknown_trigger_group
  guard
      (is_empty ex.activation_group.group_name
        || contains ex.activation_group.group_name rules.groups)
      unknown_activation_group
  guard (all_declared rules.groups ex.groups) unknown_group
  guard (not (contains ex.id ex.parent_ids)) own_parent
  ok ex
