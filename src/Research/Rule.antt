-- ===== src/Research/Rule.antt =====
-- `find_rule` of src/research/rule.cpp, and what a forest of rules holds.
use Prim.Native.Nat.{max}
use ctguard.Base.{ℕ, suc, Option, none, some, ◌==◌, if◌then◌else◌, ◌⊎◌}
use ctguard.Research.Types.{RuleInfo, Rules, nil, cons}

-- `find_rule`: a rule, then its children, then the next rule. The result is the rule that is
-- pointed at; a change through the pointer is `add_child` in Parse.
unfoldable pub find_rule : Rules → ℕ → Option RuleInfo
find_rule nil id = none
find_rule (cons r children siblings) id =
    if r.id == id
    then some r
    else elim (find_rule children id) [ some c ↦ some c | none ↦ find_rule siblings id ]

-- Every rule of the forest, at whatever depth, satisfies the predicate.
abbrev pub AllRules : (RuleInfo → Type 0) → Rules → Type 0
AllRules P nil = Unit {0}
AllRules P (cons r children siblings) = P r × AllRules P children × AllRules P siblings

-- Some rule of the forest does.
abbrev pub SomeRule : (RuleInfo → Type 0) → Rules → Type 0
SomeRule P nil = ⊥
SomeRule P (cons r children siblings) = P r ⊎ SomeRule P children ⊎ SomeRule P siblings

abbrev pub height : Rules → ℕ
height nil = 0
height (cons r children siblings) = max (suc (height children)) (height siblings)
