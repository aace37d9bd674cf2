-- ===== src/Research/Process/Unheard.antt =====
-- A rule with an `unless_rule` that is checked on an event from a rule it does not know.
use ctguard.Base.{
  ℕ, zero, suc, ◌≡◌, ◌≢◌, false, ◌⊎◌, inl, inr, ok, err, >>=-eq-ok, arith, nat_key, List,
}
use ctguard.Research.Types.{Event, RuleInfo, Rules, nil, cons}
use ctguard.Research.Env.{Env, World, unknown_child}
use ctguard.Research.Check.{check_rule, check_unless}
use ctguard.Research.Check.Safe.{hears}
use ctguard.Research.Process.{Candidate, gather, check_top_rules}

-- Some rule of this level satisfies the predicate.
abbrev pub SomeTop : (RuleInfo → Type 0) → Rules → Type 0
SomeTop P nil = ⊥
SomeTop P (cons r children siblings) = P r ⊎ SomeTop P siblings

check_rule-unheard :
    (env : Env) (e : Event) (rl : RuleInfo) (w : World)
    → hears e.rule_id rl ≡ false
    → check_rule env e rl w ≡ err unknown_child
unfolding check_rule check_unless
check_rule-unheard env e rl w h = ground arith

gather-unheard :
    (env : Env) (e : Event) (rules : Rules) (w : World) (a : List Candidate × World)
    → SomeTop (λ rl. hears e.rule_id rl ≡ false) rules
    → gather env e rules w ≢ ok a
unfolding gather
gather-unheard env e nil w a h g = h
gather-unheard env e (cons r children siblings) w a (inl h) g =
    cc (check_rule-unheard env e r w h, (>>=-eq-ok (check_rule env e r w) _ g).1)
gather-unheard env e (cons r children siblings) w a (inr h) g =
    let (x, _, g1) = >>=-eq-ok (check_rule env e r w) _ g in
    let (y, g2, _) = >>=-eq-ok (gather env e siblings x.1) _ g1 in
    gather-unheard env e siblings x.1 y h g2

-- Whatever the other rules do, a level with a rule that does not know the event's last rule is not
-- checked to its end: the code throws. At the top of the group rules this meets any event whose
-- last rule is neither a parent nor the other rule of some `unless_rule` there.
pub check_top_rules-unheard :
    (fuel : ℕ) (env : Env) (e : Event) (rules : Rules) (w : World) (a : Event × World)
    → SomeTop (λ rl. hears e.rule_id rl ≡ false) rules
    → check_top_rules fuel env e rules w ≢ ok a
unfolding check_top_rules
check_top_rules-unheard zero env e rules w a h c = cc
check_top_rules-unheard (suc fuel) env e rules w a h c =
    let (x, g, _) = >>=-eq-ok (gather env e rules w) _ c in gather-unheard env e rules w x h g
