-- ===== src/Research/Process/Total.antt =====
-- Which errors `check_top_rules` and `process_log` can end with, their fuel included.
use ctguard.Base.{
  ℕ, zero, suc, ◌≤◌, ◌<◌, ◌≡◌, ◌≢◌, refl, sym, ◌∙◌, true, List, [], ◌∷◌, some, arith, ◌⊎◌, inl, inr,
  All, All-at, Bool-cases, Option-cases, Bytes, length, err, Fails, Fails-bind, Post, Post-bind,
  Fails-Post, Post-Fails,
}
use ctguard.Research.Types.{SourceEvent, Event, RuleInfo, Rules, nil, cons, Fields, Format, RuleCfg}
use ctguard.Research.Env.{
  Env, MatchesMarks, World, Error, no_fitting_rule, bad_regex, out_of_range, too_deep,
}
use ctguard.Research.Event.{event_of}
use ctguard.Research.Rule.{height}
use ctguard.Research.Check.{Verdict, check_rule}
use ctguard.Research.Check.Safe.{MarksFit, hears, check_rule-Fails}
use ctguard.Research.Process.{
  Candidate, add_matching, gather, best, descend, check_top_rules, fill, format_log, process_log,
}
use ctguard.Research.Process.Select.{best-IsBest}

-- Every rule of this level is good for an event that comes from the rule `id`.
abbrev pub Level : (ℕ → RuleInfo → Type 0) → ℕ → Rules → Type 0
Level Good id nil = Unit {0}
Level Good id (cons r children siblings) = Good id r × Level Good id siblings

-- The children of every rule are good for an event that comes from that rule.
abbrev pub Linked : (ℕ → RuleInfo → Type 0) → Rules → Type 0
Linked Good nil = Unit {0}
Linked Good (cons r children siblings) =
    Level Good r.id children × Linked Good children × Linked Good siblings

module _ (P : Error → Type 0) (env : Env) (Good : ℕ → RuleInfo → Type 0)
    (check : (ev : Event) (rl : RuleInfo) (w : World)
      → Good ev.rule_id rl
      → Fails P (check_rule env ev rl w))
    (unfit : P no_fitting_rule) where
  -- What is known of a matching rule: its children are good for an event that comes from it.
  abbrev Below : ℕ → Candidate → Type 0
  Below n c =
      Level Good c.info.id c.children × Linked Good c.children × (suc (height c.children) ≤ n)

  add_matching-Below :
      (n : ℕ) (r : RuleInfo) (children : Rules) (v : Verdict) (cs : List Candidate)
      → Level Good r.id children × Linked Good children × (suc (height children) ≤ n)
      → All (Below n) cs
      → All (Below n) (add_matching r children v cs)
  unfolding add_matching
  add_matching-Below n r children v cs h t = elim (Bool-cases v.matches) [
    | inl e ↦ rw e (h, t)
    | inr e ↦ rw e t
  ]

  gather-Below :
      (n : ℕ) (e : Event) (rules : Rules) (w : World)
      → height rules ≤ n
      → Level Good e.rule_id rules
      → Linked Good rules
      → Post P (λ a. All (Below n) a.0) (gather env e rules w)
  unfolding gather
  gather-Below n e nil w h v l = tt
  gather-Below n e (cons r children siblings) w h v l =
      Post-bind P (λ a. Unit {0}) _ (check_rule env e r w) _
        (Fails-Post P (check_rule env e r w) (check e r w v.0))
        λ a _.
          Post-bind P (λ b. All (Below n) b.0) _ (gather env e siblings a.1) _
            (gather-Below n e siblings a.1 (omega arith) v.1 l.2)
            λ b t. add_matching-Below n r children a.0 b.0 (l.0, l.1, omega arith) t

  descend-Fails :
      (fuel : ℕ)
      → ((e : Event) (rules : Rules) (w : World)
          → height rules < fuel
          → Level Good e.rule_id rules
          → Linked Good rules
          → Fails P (check_top_rules fuel env e rules w))
      → (e : Event) (top : List Candidate) (w : World) → All (Below fuel) top
      → Fails P (descend (check_top_rules fuel env) e top w)
  unfolding descend
  descend-Fails fuel next e [] w h = tt
  descend-Fails fuel next e (c ∷ cs) w h = elim (Option-cases (best (c ∷ cs))) [
    | inl b ↦ rw b unfit
    | inr (fit, b) ↦
        let known = All-at (Below fuel) fit (c ∷ cs) h (best-IsBest (c ∷ cs) fit b).0 in
        rw b (next _ fit.children _ known.2 known.0 known.1)
  ]

  check_top_rules-Fails :
      (fuel : ℕ) (e : Event) (rules : Rules) (w : World)
      → height rules < fuel
      → Level Good e.rule_id rules
      → Linked Good rules
      → Fails P (check_top_rules fuel env e rules w)
  unfolding check_top_rules
  check_top_rules-Fails zero e rules w h v l = absurd (omega arith)
  check_top_rules-Fails (suc fuel) e rules w h v l =
      Post-Fails P (λ a. Unit {0}) _
        (Post-bind P (λ a. All (Below fuel) a.0) (λ a. Unit {0}) (gather env e rules w) _
          (gather-Below fuel e rules w (omega arith) v l)
          λ a known.
            Fails-Post P _ (descend-Fails fuel (check_top_rules-Fails fuel) e a.0 a.1 known))

Level-map :
    (G H : ℕ → RuleInfo → Type 0) (i j : ℕ) (rules : Rules)
    → ((r : RuleInfo) → G i r → H j r)
    → Level G i rules
    → Level H j rules
Level-map G H i j nil f h = tt
Level-map G H i j (cons r children siblings) f h = (f r h.0, Level-map G H i j siblings f h.1)

-- `FormatFits` of a format: it names each group of its expression.
abbrev pub FormatFits : Env → Format → Type 0
FormatFits env f = env.mark_count f.reg ≡ some (length f.fields)

module _ (P : Error → Type 0) (env : Env) where
  fill-Fails :
      (names gs : List Bytes) (m : Fields)
      → P out_of_range ⊎ (length gs ≤ length names)
      → Fails P (fill names gs m)
  unfolding fill
  fill-Fails names [] m h = tt
  fill-Fails [] (g ∷ gs) m (inl h) = h
  fill-Fails [] (g ∷ gs) m (inr h) = absurd (omega arith)
  fill-Fails (n ∷ ns) (g ∷ gs) m h =
      fill-Fails ns gs _ (elim h [ inl p ↦ inl p | inr q ↦ inr (omega arith) ])

  format_log-Fails :
      (fs : List Format) (e : Event)
      → P out_of_range ⊎ (MatchesMarks env × All (FormatFits env) fs)
      → Fails P (format_log env fs e)
  unfolding format_log
  format_log-Fails [] e h = tt
  format_log-Fails (f ∷ fs) e h = elim (Option-cases (env.regex_match f.reg e.logstr)) [
    | inl x ↦
        rw (x, format_log)
          (format_log-Fails fs e
            (elim h [ inl p ↦ inl p | inr (marks, ok_fs) ↦ inr (marks, ok_fs.1) ]))
    | inr (gs, x) ↦
        rw (x, format_log)
          (Fails-bind P _ _ (fill-Fails f.fields gs e.fields (named gs x)) λ m _. tt)
  ]
    where
      named :
          (gs : List Bytes)
          → env.regex_match f.reg e.logstr ≡ some gs
          → P out_of_range ⊎ (length gs ≤ length f.fields)
      named gs x = elim h [
        | inl p ↦ inl p
        | inr (marks, fits) ↦
            let same : some (length f.fields) ≡ some (length gs) =
              sym fits.0 ∙ marks.match_marks f.reg e.logstr gs x in
            inr (ground arith)
      ]

module _ (P : Error → Type 0) (env : Env) (unfit : P no_fitting_rule) where
  process_log-Fails :
      (G : ℕ → RuleInfo → Type 0) (cfg : RuleCfg) (se : SourceEvent) (w : World)
      → ((ev : Event) (rl : RuleInfo) (w : World)
          → G ev.rule_id rl
          → Fails P (check_rule env ev rl w))
      → P out_of_range ⊎ (MatchesMarks env × All (FormatFits env) cfg.formats)
      → ((id : ℕ) → Level G id cfg.std_rules)
      → Linked G cfg.std_rules
      → ((id : ℕ) → Level G id cfg.group_rules)
      → Linked G cfg.group_rules
      → Fails P (process_log env cfg se w)
  unfolding process_log
  process_log-Fails G cfg se w check fs t l t' l' =
      Fails-bind P _ _ (format_log-Fails P env cfg.formats (event_of env se) fs) λ e _.
        Fails-bind P _ _
          (check_top_rules-Fails P env G check unfit _ e cfg.std_rules w (omega arith) (t e.rule_id)
            l)
          λ a _.
            check_top_rules-Fails P env G check unfit _ a.0 cfg.group_rules a.1 (omega arith)
              (t' a.0.rule_id) l'

abbrev Anything : ℕ → RuleInfo → Type 0
Anything id rl = Unit

Level-Anything : (id : ℕ) (rules : Rules) → Level Anything id rules
Level-Anything id nil = tt
Level-Anything id (cons r children siblings) = (tt, Level-Anything id siblings)

Linked-Anything : (rules : Rules) → Linked Anything rules
Linked-Anything nil = tt
Linked-Anything (cons r children siblings) =
    (Level-Anything r.id children, Linked-Anything children, Linked-Anything siblings)

-- The fuel that `process_log` takes, one more than the depth of the rules, is always enough.
pub process_log_total :
    (env : Env) (cfg : RuleCfg) (se : SourceEvent) (w : World)
    → process_log env cfg se w ≢ err too_deep
process_log_total env cfg se w e = (rw e at fails) refl
  where
    fails : Fails (λ x. x ≢ too_deep) (process_log env cfg se w)
    fails =
        process_log-Fails (λ x. x ≢ too_deep) env (λ x. cc) Anything cfg se w
          (λ ev rl w _.
            check_rule-Fails (λ x. x ≢ too_deep) env (λ x. cc) ev rl w (inl (λ x. cc))
              (inl (λ x. cc)))
          (inl (λ x. cc)) (λ id. Level-Anything id cfg.std_rules) (Linked-Anything cfg.std_rules)
          (λ id. Level-Anything id cfg.group_rules) (Linked-Anything cfg.group_rules)

-- A rule at the top level: no `unless_rule`, and names for all groups of its expression.
abbrev pub AtTop : Env → ℕ → RuleInfo → Type 0
AtTop env id rl = MarksFit env rl.reg rl.regex_fields × (rl.unless_rule.id ≡ 0)

-- A rule below the rule `id`.
abbrev pub BelowRule : Env → ℕ → RuleInfo → Type 0
BelowRule env id rl = MarksFit env rl.reg rl.regex_fields × (hears id rl ≡ true)

-- What `process_log` relies on: each expression has as many groups as there are names for them,
-- and a rule with an `unless_rule` stands only below its parents and below the other rule.
pub record WellFormed (env : Env) (cfg : RuleCfg) : Type 0 where
  pub formats : All (FormatFits env) cfg.formats
  pub std_top : Level (AtTop env) 0 cfg.std_rules
  pub std_linked : Linked (BelowRule env) cfg.std_rules
  pub group_top : Level (AtTop env) 0 cfg.group_rules
  pub group_linked : Linked (BelowRule env) cfg.group_rules

-- The errors that rules alone cannot rule out.
abbrev pub IsForeign : Error → Type 0
IsForeign bad_regex = Unit
IsForeign no_fitting_rule = Unit
IsForeign _ = ⊥

-- Under well-formed rules `process_log` reads no vector past its end, never meets an unknown child
-- and does not run out of fuel: it fails by a bad expression of a trigger or for lack of a fitting
-- rule alone.
pub process_log_safe :
    (env : Env) (cfg : RuleCfg) (se : SourceEvent) (w : World)
    → MatchesMarks env
    → WellFormed env cfg
    → Fails IsForeign (process_log env cfg se w)
process_log_safe env cfg se w marks v =
    process_log-Fails IsForeign env tt (BelowRule env) cfg se w
      (λ ev rl w g. check_rule-Fails IsForeign env tt ev rl w (inr (marks, g.0)) (inr g.1))
      (inr (marks, v.formats))
      (λ id. Level-map (AtTop env) (BelowRule env) 0 id cfg.std_rules (calm id) v.std_top)
      v.std_linked
      (λ id. Level-map (AtTop env) (BelowRule env) 0 id cfg.group_rules (calm id) v.group_top)
      v.group_linked
  where
    calm : (id : ℕ) (r : RuleInfo) → AtTop env 0 r → BelowRule env id r
    calm id r h = (h.0, ground arith)
