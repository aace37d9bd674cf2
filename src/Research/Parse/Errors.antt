-- ===== src/Research/Parse/Errors.antt =====
-- The exceptions of `parse_rules`, one constructor for each kind of complaint.
use ctguard.Base.{Outcome, guard, is_empty}
use ctguard.Xml.Node.{NodeInfo}

-- `undefined_read` is no exception: it stands for the undefined `str[npos]` of `trim`.
pub data RuleError : Type 0 where
  bad_root bad_attribute bad_child empty_text reserved_group missing_name : RuleError
  missing_regex bad_marks bad_number bad_flag bad_match missing_time missing_rate : RuleError
  low_rate missing_field unknown_intervention missing_id duplicate_id : RuleError
  missing_priority parent_and_group same_field_alone no_such_unless unless_alone : RuleError
  unknown_trigger_group unknown_activation_group unknown_group own_parent : RuleError
  no_such_parent undefined_read : RuleError

abbrev pub Parsed : Type 0 → Type 0
Parsed A = Outcome RuleError A

-- `if (!node.attributes().empty()) throw …`
abbrev pub no_attributes : NodeInfo → Parsed (Unit {0})
no_attributes node = guard (is_empty node.attributes) bad_attribute
