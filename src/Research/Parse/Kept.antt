-- ===== src/Research/Parse/Kept.antt =====
-- What a draft keeps while the children of its `rule` node are read.
use ctguard.Base.{◌≡◌, refl, List, [], ◌∷◌, none, Bytes, Post, Post-bind, Whatever, arith}
use ctguard.Xml.Node.{NodeInfo, Nodes, nil, cons, Attributes}
use ctguard.Research.Types.{RuleInfo}
use ctguard.Research.Parse.Draft.{
  RuleDraft, default_rule, read_text_child, read_child, read_children, read_rule, rule_attribute,
  rule_attributes,
}

-- No expression is built yet, and `unless_id` is the id of the `unless_rule`.
abbrev pub Keeps : RuleDraft → Type 0
Keeps d = (d.ex.reg ≡ none) × (d.unless_id ≡ d.ex.unless_rule.id)

read_text_child-Keeps :
    (node : NodeInfo) (d : RuleDraft) → Keeps d → Post Whatever Keeps (read_text_child node d)
unfolding read_text_child
read_text_child-Keeps node d h = ground arith

read_child-Keeps :
    (interventions : List Bytes) (node : NodeInfo) (d : RuleDraft)
    → Keeps d
    → Post Whatever Keeps (read_child interventions node d)
unfolding read_child
read_child-Keeps interventions node d h = ground (arith, read_text_child-Keeps node d h)

read_children-Keeps :
    (interventions : List Bytes) (nodes : Nodes) (d : RuleDraft)
    → Keeps d
    → Post Whatever Keeps (read_children interventions nodes d)
unfolding read_children
read_children-Keeps interventions nil d h = h
read_children-Keeps interventions (cons node children siblings) d h =
    Post-bind Whatever Keeps Keeps (read_child interventions node d)
      (read_children interventions siblings) (read_child-Keeps interventions node d h)
      λ d' h'. read_children-Keeps interventions siblings d' h'

-- The attributes set neither.
abbrev Plain : RuleInfo → Type 0
Plain ex = (ex.reg ≡ none) × (0 ≡ ex.unless_rule.id)

rule_attribute-Plain :
    (k v : Bytes) (ex : RuleInfo) → Plain ex → Post Whatever Plain (rule_attribute k v ex)
unfolding rule_attribute
rule_attribute-Plain k v ex h = ground arith

rule_attributes-Plain :
    (attrs : Attributes) (ex : RuleInfo) → Plain ex → Post Whatever Plain (rule_attributes attrs ex)
unfolding rule_attributes
rule_attributes-Plain [] ex h = h
rule_attributes-Plain ((k, v) ∷ kvs) ex h =
    Post-bind Whatever Plain Plain (rule_attribute k v ex) (rule_attributes kvs)
      (rule_attribute-Plain k v ex h) λ ex' h'. rule_attributes-Plain kvs ex' h'

pub read_rule-Keeps :
    (interventions : List Bytes) (node : NodeInfo) (children : Nodes)
    → Post Whatever Keeps (read_rule interventions node children)
unfolding read_rule
read_rule-Keeps interventions node children =
    Post-bind Whatever Plain Keeps (rule_attributes node.attributes default_rule) _
      (rule_attributes-Plain node.attributes default_rule (refl, refl))
      λ ex h. read_children-Keeps interventions children _ h
