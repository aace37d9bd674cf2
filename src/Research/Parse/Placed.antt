-- ===== src/Research/Parse/Placed.antt =====
-- Where `parse_rules` puts rules: each stays good for the place where it stands.
use ctguard.Base.{
  ℕ, ◌≡◌, true, not, ◌||◌, List, [], ◌∷◌, ◌==◌, ==_iff, is_empty, Bool-cases, Option-cases, inl,
  inr, contains, nat_key, All, IfSome, IfSome-at, Post, Post-bind, Whatever, arith,
}
use ctguard.Research.Types.{RuleInfo, Rules, nil, cons, RuleCfg}
use ctguard.Research.Env.{Env}
use ctguard.Research.Check.Safe.{MarksFit}
use ctguard.Research.Process.Total.{Level, Linked, AtTop, BelowRule, FormatFits}
use ctguard.Research.Parse.Errors.{RuleError, no_such_parent, no_such_unless}
use ctguard.Research.Parse.Insert.{
  push_rule, add_child, attach, attach_all, insert_normally, insert_rule,
}

module _ (G : ℕ → RuleInfo → Type 0) (ex : RuleInfo) where
  push_rule-Level :
      (i : ℕ) (rules : Rules) → G i ex → Level G i rules → Level G i (push_rule ex rules)
  unfolding push_rule
  push_rule-Level i nil g h = (g, tt)
  push_rule-Level i (cons r children siblings) g h = (h.0, push_rule-Level i siblings g h.1)

  push_rule-Linked : (rules : Rules) → Linked G rules → Linked G (push_rule ex rules)
  unfolding push_rule
  push_rule-Linked nil h = (tt, tt, tt)
  push_rule-Linked (cons r children siblings) h = (h.0, h.1, push_rule-Linked siblings h.2)

-- The rules of the top level stay, and below the rule that was found the new one is good.
add_child-Linked :
    (G H : ℕ → RuleInfo → Type 0) (i id : ℕ) (ex : RuleInfo) (rules : Rules)
    → G id ex
    → Level H i rules
    → Linked G rules
    → IfSome (λ rules'. Level H i rules' × Linked G rules') (add_child rules id ex)
unfolding add_child
add_child-Linked G H i id ex nil g v l = tt
add_child-Linked G H i id ex (cons r children siblings) g v l = elim (Bool-cases (r.id == id)) [
  | inl e ↦
      let same : r.id ≡ id = (==_iff r.id id).0 e in
      rw e (
        v,
        (
          push_rule-Level G ex r.id children (rw same g) l.0,
          push_rule-Linked G ex children l.1,
          l.2,
        ),
      )
  | inr e ↦ rw e (elim (Option-cases (add_child children id ex)) [
    | inl n ↦ rw n (elim (Option-cases (add_child siblings id ex)) [
      | inl m ↦ rw m tt
      | inr (siblings', m) ↦
          let h = IfSome-at _ _ siblings' (add_child-Linked G H i id ex siblings g v.1 l.2) m in
          rw m ((v.0, h.0), (l.0, l.1, h.1))
    ])
    | inr (children', n) ↦
        let h = IfSome-at _ _ children' (add_child-Linked G G r.id id ex children g l.0 l.1) n in
        rw n (v, (h.0, h.1, l.2))
  ])
]

-- A group rule at the top level: names for all groups of its expression.
abbrev pub Marked : Env → ℕ → RuleInfo → Type 0
Marked env id rl = MarksFit env rl.reg rl.regex_fields

pub record Placed (env : Env) (cfg : RuleCfg) : Type 0 where
  pub formats : All (FormatFits env) cfg.formats
  pub std_top : Level (AtTop env) 0 cfg.std_rules
  pub std_linked : Linked (BelowRule env) cfg.std_rules
  pub group_top : Level (Marked env) 0 cfg.group_rules
  pub group_linked : Linked (BelowRule env) cfg.group_rules

module _ (env : Env) where
  attach-Placed :
      (complaint : RuleError) (ex : RuleInfo) (id : ℕ) (rules : RuleCfg)
      → BelowRule env id ex
      → Placed env rules
      → Post Whatever (Placed env) (attach complaint ex id rules)
  unfolding attach
  attach-Placed complaint ex id rules g p = elim (Option-cases (add_child rules.std_rules id ex)) [
    | inr (std, e) ↦
        let h =
          IfSome-at _ _ std
            (add_child-Linked (BelowRule env) (AtTop env) 0 id ex rules.std_rules g p.std_top
              p.std_linked)
            e in
        rw (e, attach)
          (record {
            formats = p.formats;
            std_top = h.0;
            std_linked = h.1;
            group_top = p.group_top;
            group_linked = p.group_linked;
          })
    | inl e ↦
        rw (e, attach)
          (elim (Option-cases (add_child rules.group_rules id ex)) [
            | inr (grouped, n) ↦
                let h =
                  IfSome-at _ _ grouped
                    (add_child-Linked (BelowRule env) (Marked env) 0 id ex rules.group_rules g
                      p.group_top p.group_linked)
                    n in
                rw (n, attach)
                  (record {
                    formats = p.formats;
                    std_top = p.std_top;
                    std_linked = p.std_linked;
                    group_top = h.0;
                    group_linked = h.1;
                  })
            | inl n ↦ rw (n, attach) tt
          ])
  ]

  attach_all-Placed :
      (ex : RuleInfo) (ids : List ℕ) (rules : RuleCfg)
      → All (λ id. BelowRule env id ex) ids
      → Placed env rules
      → Post Whatever (Placed env) (attach_all ex ids rules)
  unfolding attach_all
  attach_all-Placed ex [] rules g p = p
  attach_all-Placed ex (id ∷ ids) rules g p =
      Post-bind Whatever (Placed env) (Placed env) (attach no_such_parent ex id rules)
        (attach_all ex ids) (attach-Placed no_such_parent ex id rules g.0 p)
        λ rules' p'. attach_all-Placed ex ids rules' g.1 p'

  parents-BelowRule :
      (ex : RuleInfo) (ids : List ℕ)
      → MarksFit env ex.reg ex.regex_fields
      → ((id : ℕ) → contains id ids ≡ true → contains id ex.parent_ids ≡ true)
      → All (λ id. BelowRule env id ex) ids
  unfolding contains
  parents-BelowRule ex [] m h = tt
  parents-BelowRule ex (id ∷ ids) m h =
      ((m, ground (arith, h id)), parents-BelowRule ex ids m (λ j c. h j (ground arith)))

  -- What the checks know of a rule that is inserted.
  abbrev pub Checked : RuleInfo → Type 0
  Checked ex =
      MarksFit env ex.reg ex.regex_fields
      × ((ex.unless_rule.id == 0 || not (is_empty ex.parent_ids)) ≡ true)

  insert_normally-Placed :
      (ex : RuleInfo) (rules : RuleCfg)
      → Checked ex
      → Placed env rules
      → Post Whatever (Placed env) (insert_normally ex rules)
  unfolding insert_normally
  insert_normally-Placed ex rules c p =
      elim (Bool-cases
        (not (is_empty ex.trigger_group) || not (is_empty ex.activation_group.group_name))) [
          | inl e ↦ rw e (record {
            formats = p.formats;
            std_top = p.std_top;
            std_linked = p.std_linked;
            group_top = push_rule-Level (Marked env) ex 0 rules.group_rules c.0 p.group_top;
            group_linked = push_rule-Linked (BelowRule env) ex rules.group_rules p.group_linked;
          })
          | inr e ↦ rw e (elim (Bool-cases (is_empty ex.parent_ids)) [
            | inl n ↦ rw n (record {
              formats = p.formats;
              group_top = p.group_top;
              group_linked = p.group_linked;
              std_top =
                  push_rule-Level (AtTop env) ex 0 rules.std_rules (c.0, ground arith) p.std_top;
              std_linked = push_rule-Linked (BelowRule env) ex rules.std_rules p.std_linked;
            })
            | inr n ↦ rw n (
                attach_all-Placed ex ex.parent_ids rules
                  (parents-BelowRule ex ex.parent_ids c.0 (λ id h. h)) p)
          ])
        ]

  pub insert_rule-Placed :
      (ex : RuleInfo) (unless_id : ℕ) (rules : RuleCfg)
      → Checked ex
      → unless_id ≡ ex.unless_rule.id
      → Placed env rules
      → Post Whatever (Placed env) (insert_rule ex unless_id rules)
  unfolding insert_rule
  insert_rule-Placed ex unless_id rules c same p =
      Post-bind Whatever (Placed env) (Placed env) (insert_normally ex rules) _
        (insert_normally-Placed ex rules c p)
        λ placed p'. elim (Bool-cases (not (unless_id == 0))) [
          | inl e ↦ rw e (attach-Placed no_such_unless ex unless_id placed (c.0, ground arith) p')
          | inr e ↦ rw e p'
        ]
