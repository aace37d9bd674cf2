-- ===== src/Research/Check/Match.antt =====
-- When a rule matches an event.
use ctguard.Base.{
  ◌≡◌, true, ◌&&◌, ◌↔◌, Option, none, some, ==_iff, All, arith, ok, ◌>>=◌, >>=-eq-ok,
}
use ctguard.Research.Types.{Event, RuleInfo, Fields}
use ctguard.Research.Env.{Env, World, Result}
use ctguard.Research.Check.{
  Activation, Verdict, group_matches, triggers_match, check_regex, check_traits, check_found,
  check_conditions, check_activation, check_rule, asks_something,
}
use ctguard.Research.Check.Demands.{Distinct, Met, triggers_match-Met}

-- The rule's expression is found in the event's text, or there is none.
abbrev pub IsFound : Result (Option Fields) → Type 0
IsFound (ok (some fs)) = Unit
IsFound _ = ⊥

abbrev Conditions : Env → RuleInfo → Event → Activation → Type 0
Conditions env rl ev a =
    (group_matches rl ev ≡ true)
    × (triggers_match env rl.trigger_fields ev.fields ≡ ok true)
    × (triggers_match env rl.trigger_traits ev.traits ≡ ok true)
    × IsFound (check_regex env rl ev)
    × ((asks_something rl a.matched && a.active) ≡ true)

check_found_iff :
    (rl : RuleInfo) (a : Activation) (found : Option Fields)
    → ((check_found rl a found).matches ≡ true)
      ↔ (IsFound (ok found) × ((asks_something rl a.matched && a.active) ≡ true))
unfolding check_found
check_found_iff rl a none = ground arith
check_found_iff rl a (some fs) = ground arith

check_conditions_iff :
    (env : Env) (rl : RuleInfo) (ev : Event) (a : Activation) (v : Verdict)
    → check_conditions env rl ev a ≡ ok v
    → (v.matches ≡ true) ↔ Conditions env rl ev a
unfolding check_conditions check_traits
check_conditions_iff env rl ev a v e = ground arith

-- What a rule with no `unless_rule` asks of an event, in terms of the event.
abbrev pub Demands : Env → RuleInfo → Event → World → Type 0
Demands env rl ev w =
    (group_matches rl ev ≡ true)
    × All (Met env ev.fields) rl.trigger_fields
    × All (Met env ev.traits) rl.trigger_traits
    × IsFound (check_regex env rl ev)
    × ((asks_something rl (check_activation env rl ev w).0.matched
          && (check_activation env rl ev w).0.active)
        ≡ true)

abbrev with_world : World → Verdict → Result (Verdict × World)
with_world w v = ok (v, w)

-- A rule with no `unless_rule`, checked without an error, matches exactly when the event has its
-- group, meets all its triggers and its expression, and the rule is active and asks for something.
-- The shared state is then the one that the part on the activation group leaves.
pub check_rule-Demands :
    (env : Env) (ev : Event) (rl : RuleInfo) (w w' : World) (v : Verdict)
    → rl.unless_rule.id ≡ 0
    → Distinct ev.fields
    → Distinct ev.traits
    → check_rule env ev rl w ≡ ok (v, w')
    → ((v.matches ≡ true) ↔ Demands env rl ev w) × (w' ≡ (check_activation env rl ev w).1)
unfolding check_rule
check_rule-Demands env ev rl w w' v plain df dt e =
    let fields = triggers_match-Met env rl.trigger_fields ev.fields df in
    let traits = triggers_match-Met env rl.trigger_traits ev.traits dt in
    let a = (check_activation env rl ev w).0 in
    let (x, c, done) = >>=-eq-ok (check_conditions env rl ev a) _ (no_unless e) in
    let same : v ≡ x = ground arith in
    let iff = check_conditions_iff env rl ev a v (rw same c) in
    (
      (
        (λ m. let (g, f, t, r, s) = iff.0 m in (g, fields.0 f, traits.0 t, r, s)),
        (λ d. iff.1 (d.0, fields.1 d.1, traits.1 d.2, d.3, d.4)),
      ),
      ground arith,
    )
  where
    no_unless :
        check_rule env ev rl w ≡ ok (v, w')
        → (check_conditions env rl ev (check_activation env rl ev w).0 >>= λ x.
            with_world (check_activation env rl ev w).1 x)
          ≡ ok (v, w')
    no_unless h = rw ((==_iff rl.unless_rule.id 0).1 plain) at h
