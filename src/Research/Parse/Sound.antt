-- ===== src/Research/Parse/Sound.antt =====
-- Whatever `parse_rules` accepts is well placed, and what that means for `process_log`.
use ctguard.Base.{
  ◌≡◌, refl, not, List, [], none, ◌==◌, is_empty, Bool-cases, Option-cases, inl, inr, All-append,
  Bytes, length, ok, guard, beq, ◌>>◌, Post, Post-bind, Post-guard, Post-then, Post-eq-ok, Whatever,
  Fails, codes, arith,
}
use ctguard.Xml.Node.{NodeInfo, Nodes, nil, cons}
use ctguard.Research.Types.{
  RuleInfo, Rules, nil as nil_rules, cons as cons_rule, RuleCfg, SourceEvent,
}
use ctguard.Research.Env.{Env, World, MatchesMarks}
use ctguard.Research.Check.Safe.{MarksFit}
use ctguard.Research.Process.{process_log}
use ctguard.Research.Process.Total.{FormatFits, Level, AtTop, IsForeign, process_log_safe}
use ctguard.Research.Parse.Errors.{
  bad_marks, bad_root, no_attributes, missing_name, missing_regex, Parsed,
}
use ctguard.Research.Parse.Draft.{RuleDraft, read_rule}
use ctguard.Research.Parse.Check.{build_reg, check_draft}
use ctguard.Research.Parse.Kept.{Keeps, read_rule-Keeps}
use ctguard.Research.Parse.Placed.{Placed, Marked, Checked, insert_rule-Placed}
use ctguard.Research.Parse.{
  read_group, read_intervention, check_marks, read_format, read_rule_node, read_node, read_nodes,
  parse_rules, format_name, format_children,
}

module _ (env : Env) where
  build_reg-MarksFit :
      (ireg : Bytes) (ex : RuleInfo)
      → ex.reg ≡ none
      → Post Whatever
          (λ ex'.
            MarksFit env ex'.reg ex'.regex_fields
            × (ex'.unless_rule ≡ ex.unless_rule)
            × (ex'.parent_ids ≡ ex.parent_ids))
          (build_reg env ireg ex)
  unfolding build_reg
  build_reg-MarksFit ireg ex h = elim (Bool-cases (is_empty ireg)) [
    | inl e ↦ rw e (rw h tt, refl, refl)
    | inr e ↦ rw e (elim (Option-cases (env.mark_count ireg)) [
      | inl n ↦ rw (n, build_reg) tt
      | inr (k, n) ↦
          rw (n, build_reg)
            (Post-guard _ (k == length ex.regex_fields) bad_marks _
              λ same. (ground arith, refl, refl))
    ])
  ]

  check_draft-Checked :
      (rules : RuleCfg) (d : RuleDraft)
      → Keeps d
      → Post Whatever
          (λ ex. Checked env ex × (d.unless_id ≡ ex.unless_rule.id))
          (check_draft env rules d)
  unfolding check_draft
  check_draft-Checked rules d h = ground (arith, build_reg-MarksFit d.ireg d.ex h.0)

  read_rule_node-Placed :
      (node : NodeInfo) (children : Nodes) (rules : RuleCfg)
      → Placed env rules
      → Post Whatever (Placed env) (read_rule_node env node children rules)
  unfolding read_rule_node
  read_rule_node-Placed node children rules p =
      Post-bind Whatever Keeps (Placed env) (read_rule rules.interventions node children) _
        (read_rule-Keeps rules.interventions node children)
        λ d h.
          Post-bind Whatever (λ ex. Checked env ex × (d.unless_id ≡ ex.unless_rule.id)) (Placed env)
            (check_draft env rules d) _ (check_draft-Checked rules d h)
            λ ex c. insert_rule-Placed env ex d.unless_id rules c.0 c.1 p

  check_marks-fits :
      (name ireg : Bytes) (fields : List Bytes) (m : Parsed RuleCfg)
      → (FormatFits env (record { name = name; reg = ireg; fields = fields })
          → Post Whatever (Placed env) m)
      → Post Whatever (Placed env) (check_marks env ireg fields >> m)
  unfolding check_marks
  check_marks-fits name ireg fields m h = elim (Option-cases (env.mark_count ireg)) [
    | inl n ↦ rw (n, check_marks) tt
    | inr (k, n) ↦
        rw (n, check_marks)
          (Post-guard (Placed env) (k == length fields) bad_marks m λ same. h (ground arith))
  ]

  read_format-Placed :
      (node : NodeInfo) (children : Nodes) (rules : RuleCfg)
      → Placed env rules
      → Post Whatever (Placed env) (read_format env node children rules)
  unfolding read_format
  read_format-Placed node children rules p =
      Post-then (Placed env) (format_name node.attributes []) _ λ name.
        Post-then (Placed env) (format_children children [] []) _ λ parts.
          Post-then (Placed env) (guard (not (is_empty name)) missing_name) _ λ _.
            Post-then (Placed env) (guard (not (is_empty parts.0)) missing_regex) _ λ _.
              check_marks-fits name parts.0 parts.1 _ λ fits. record {
                formats = All-append (FormatFits env) rules.formats _ p.formats (fits, tt);
                std_top = p.std_top;
                std_linked = p.std_linked;
                group_top = p.group_top;
                group_linked = p.group_linked;
              }

  read_group-Placed :
      (node : NodeInfo) (children : Nodes) (rules : RuleCfg)
      → Placed env rules
      → Post Whatever (Placed env) (read_group node children rules)
  unfolding read_group
  read_group-Placed node children rules p = ground arith

  read_intervention-Placed :
      (node : NodeInfo) (children : Nodes) (rules : RuleCfg)
      → Placed env rules
      → Post Whatever (Placed env) (read_intervention node children rules)
  unfolding read_intervention
  read_intervention-Placed node children rules p = ground arith

  read_node-Placed :
      (node : NodeInfo) (children : Nodes) (rules : RuleCfg)
      → Placed env rules
      → Post Whatever (Placed env) (read_node env node children rules)
  unfolding read_node
  read_node-Placed node children rules p = ground (
    arith,
    read_group-Placed node children rules p,
    read_intervention-Placed node children rules p,
    read_format-Placed node children rules p,
    read_rule_node-Placed node children rules p,
  )

  read_nodes-Placed :
      (nodes : Nodes) (rules : RuleCfg)
      → Placed env rules
      → Post Whatever (Placed env) (read_nodes env nodes rules)
  unfolding read_nodes
  read_nodes-Placed nil rules p = p
  read_nodes-Placed (cons node children siblings) rules p =
      Post-bind Whatever (Placed env) (Placed env) (read_node env node children rules)
        (read_nodes env siblings) (read_node-Placed node children rules p)
        λ rules' p'. read_nodes-Placed siblings rules' p'

-- `rule_cfg{}`, from which the daemon starts.
abbrev pub no_rules : RuleCfg
no_rules = record {
  std_rules = nil_rules;
  group_rules = nil_rules;
  groups = [];
  formats = [];
  interventions = [];
}

pub no_rules-Placed : (env : Env) → Placed env no_rules
no_rules-Placed env = record {
  formats = tt;
  std_top = tt;
  std_linked = tt;
  group_top = tt;
  group_linked = tt;
}

-- Reading one more rules file keeps everything in its place: each expression has as many groups as
-- names, and each rule with an `unless_rule` that stands below a rule stands below one of its
-- parents or below the other rule; none stands at the top of the standard rules.
pub parse_rules-Placed :
    (env : Env) (root : NodeInfo) (children : Nodes) (before after : RuleCfg)
    → Placed env before
    → parse_rules env root children before ≡ ok after
    → Placed env after
unfolding parse_rules
parse_rules-Placed env root children before after p e =
    Post-eq-ok (Placed env) _
      (Post-then (Placed env) (guard (beq root.name (codes "rule_group")) bad_root) _ λ _.
        Post-then (Placed env) (no_attributes root) _ λ _. read_nodes-Placed env children before p)
      e

Calm-AtTop :
    (env : Env) (rules : Rules)
    → Level (Marked env) 0 rules
    → Level (λ id rl. rl.unless_rule.id ≡ 0) 0 rules
    → Level (AtTop env) 0 rules
Calm-AtTop env nil_rules m c = tt
Calm-AtTop env (cons_rule r children siblings) m c = ((m.0, c.0), Calm-AtTop env siblings m.1 c.1)

-- With rules that the parser accepted, and no `unless_rule` at the top of the group rules,
-- processing a log line reads no vector past its end and meets no unknown child: it can fail by the
-- expression of a trigger or for lack of a fitting rule alone.
pub parsed_rules_safe :
    (env : Env) (root : NodeInfo) (children : Nodes) (cfg : RuleCfg) (se : SourceEvent) (w : World)
    → MatchesMarks env
    → parse_rules env root children no_rules ≡ ok cfg
    → Level (λ id rl. rl.unless_rule.id ≡ 0) 0 cfg.group_rules
    → Fails IsForeign (process_log env cfg se w)
parsed_rules_safe env root children cfg se w marks e calm =
    process_log_safe env cfg se w marks (record {
      formats = p.formats;
      std_top = p.std_top;
      std_linked = p.std_linked;
      group_top = Calm-AtTop env cfg.group_rules p.group_top calm;
      group_linked = p.group_linked;
    })
  where
    p : Placed env cfg
    p = parse_rules-Placed env root children no_rules cfg (no_rules-Placed env) e
