-- ===== src/Research/Check/Safe.antt =====
-- Which errors the check of one rule can end with.
use ctguard.Base.{
  ℕ, ◌≤◌, ◌≡◌, sym, ◌∙◌, Bool, true, false, ◌||◌, List, [], ◌∷◌, Option, none, some, arith, ◌==◌,
  ◌⊎◌, Bool-cases, Option-cases, inl, inr, Bytes, beq, is_empty, length, contains, nat_key, Fails,
  Fails-bind,
}
use ctguard.Research.Types.{Event, RuleInfo, RuleMatch, exact, regex, empty, Triggers, Fields}
use ctguard.Research.Env.{Env, MatchesMarks, World, Error, unknown_child, bad_regex, out_of_range}
use ctguard.Research.Check.{
  Activation, match_value, scan, scan_verdict, triggers_match, collect, subject, search_reg,
  check_regex, check_traits, check_conditions, check_unless, check_activation, check_rule,
  group_matches,
}

-- The rule's expression has as many groups as the rule has names for them.
abbrev pub MarksFit : Env → Option Bytes → List Bytes → Type 0
MarksFit env none names = Unit
MarksFit env (some p) names = env.mark_count p ≡ some (length names)

-- The event's last rule is one that an `unless_rule` knows: a parent of its rule, or the other one.
abbrev pub hears : ℕ → RuleInfo → Bool
hears id rl = rl.unless_rule.id == 0 || contains id rl.parent_ids || id == rl.unless_rule.id

module _ (P : Error → Type 0) (env : Env) (bad : P bad_regex) where
  match_value-Fails :
      (rm : RuleMatch) (want value : Bytes) → Fails P (match_value env rm want value)
  unfolding match_value
  match_value-Fails exact want value = tt
  match_value-Fails empty want value = tt
  match_value-Fails regex want value = elim (Option-cases (env.mark_count want)) [
    | inl e ↦ rw (e, match_value) bad
    | inr (n, e) ↦ rw (e, match_value) tt
  ]

  scan-Fails :
      (name : Bytes) (rm : RuleMatch) (want : Bytes) (fs : Fields) (found : Bool)
      → Fails P (scan env name rm want fs found)
  unfolding scan
  scan-Fails name rm want [] found = tt
  scan-Fails name rm want ((k, value) ∷ fs) found = elim (Bool-cases (beq k name)) [
    | inr e ↦ rw e (scan-Fails name rm want fs found)
    | inl e ↦ rw e (
        Fails-bind P _ _ (match_value-Fails rm want value) (λ hit _. elim (Bool-cases hit) [
          | inl y ↦ rw y (scan-Fails name rm want fs true)
          | inr n ↦ rw n tt
        ]))
  ]

  triggers_match-Fails : (ts : Triggers) (fs : Fields) → Fails P (triggers_match env ts fs)
  unfolding triggers_match
  triggers_match-Fails [] fs = tt
  triggers_match-Fails ((name, (rm, want)) ∷ ts) fs =
      Fails-bind P _ _ (scan-Fails name rm want fs false) (λ s _.
        elim (Bool-cases (scan_verdict rm s)) [
          | inl y ↦ rw y (triggers_match-Fails ts fs)
          | inr n ↦ rw n tt
        ])

  collect-Fails :
      (names gs : List Bytes)
      → P out_of_range ⊎ (length gs ≤ length names)
      → Fails P (collect names gs)
  unfolding collect
  collect-Fails names [] h = tt
  collect-Fails [] (g ∷ gs) (inr h) = absurd (omega arith)
  collect-Fails [] (g ∷ gs) (inl h) = elim (Bool-cases (is_empty g)) [
    | inl e ↦ rw e (collect-Fails [] gs (inl h))
    | inr e ↦ rw e h
  ]
  collect-Fails (n ∷ ns) (g ∷ gs) h =
      Fails-bind P _ _ (collect-Fails ns gs (elim h [ inl p ↦ inl p | inr q ↦ inr (omega arith) ]))
        (λ rest _. tt)

  search_reg-Fails :
      (reg : Option Bytes) (names : List Bytes) (text : Bytes)
      → P out_of_range ⊎ (MatchesMarks env × MarksFit env reg names)
      → Fails P (search_reg env reg names text)
  unfolding search_reg
  search_reg-Fails none names text fit = tt
  search_reg-Fails (some p) names text fit = elim (Option-cases (env.regex_search p text)) [
    | inl e ↦ rw (e, search_reg) tt
    | inr (gs, e) ↦
        rw (e, search_reg) (Fails-bind P _ _ (collect-Fails names gs (within gs e)) (λ fs _. tt))
  ]
    where
      within :
          (gs : List Bytes)
          → env.regex_search p text ≡ some gs
          → P out_of_range ⊎ (length gs ≤ length names)
      within gs e = elim fit [
        | inl h ↦ inl h
        | inr (marks, fit) ↦
            let same : some (length names) ≡ some (length gs) =
              sym fit ∙ marks.search_marks p text gs e in
            inr (ground arith)
      ]

  check_conditions-Fails :
      (rl : RuleInfo) (ev : Event) (a : Activation)
      → P out_of_range ⊎ (MatchesMarks env × MarksFit env rl.reg rl.regex_fields)
      → Fails P (check_conditions env rl ev a)
  unfolding check_conditions check_traits check_regex
  check_conditions-Fails rl ev a fit = elim (Bool-cases (group_matches rl ev)) [
    | inr e ↦ rw e tt
    | inl e ↦ rw e (
        Fails-bind P _ _ (triggers_match-Fails rl.trigger_fields ev.fields) λ hit _.
          elim (Bool-cases hit) [
            | inr n ↦ rw n tt
            | inl y ↦ rw y (
                Fails-bind P _ _ (triggers_match-Fails rl.trigger_traits ev.traits) λ hit' _.
                  elim (Bool-cases hit') [
                    | inr n ↦ rw n tt
                    | inl y' ↦ rw y' (
                        Fails-bind P _ _ (search_reg-Fails rl.reg rl.regex_fields (subject ev) fit)
                          λ found _. tt)
                  ])
          ])
  ]

  -- A rule whose expression fits its names, checked on an event that comes from a rule which the
  -- `unless_rule` knows, fails by a bad expression alone.
  pub check_rule-Fails :
      (ev : Event) (rl : RuleInfo) (w : World)
      → P out_of_range ⊎ (MatchesMarks env × MarksFit env rl.reg rl.regex_fields)
      → P unknown_child ⊎ (hears ev.rule_id rl ≡ true)
      → Fails P (check_rule env ev rl w)
  unfolding check_rule check_unless
  check_rule-Fails ev rl w fit h = elim (Bool-cases (rl.unless_rule.id == 0)) [
    | inl e ↦ rw e (
        Fails-bind P _ _ (check_conditions-Fails rl ev (check_activation env rl ev w).0 fit)
          λ v _. tt)
    | inr e ↦ rw e (ground arith)
  ]
