-- ===== src/Research/Process/Origin.antt =====
-- What processing does with the log line of an event.
use ctguard.Base.{
  ℕ, zero, suc, List, [], ◌∷◌, ◌≡◌, refl, ◌∙◌, Option-cases, inl, inr, ok, err, Outcome, Post,
  Post-then, Post-bind, Post-eq-ok, Whatever,
}
use ctguard.Research.Types.{SourceEvent, Event, Rules, RuleCfg, Format}
use ctguard.Research.Env.{Env, World, Error}
use ctguard.Research.Event.{event_of, add_groups}
use ctguard.Research.Process.{
  Candidate, gather, best, update_event, go_on, descend, check_top_rules, fill, format_log,
  process_log,
}

-- The same log line.
abbrev pub IsLine : Event → Event → Type 0
IsLine e x = (x.logstr ≡ e.logstr) × (x.control_message ≡ e.control_message)

abbrev Kept : Event → Event × World → Type 0
Kept e a = IsLine e a.0

IsLine-trans : (a b c : Event) → IsLine a b → IsLine b c → IsLine a c
IsLine-trans a b c h k = (k.0 ∙ h.0, k.1 ∙ h.1)

still_IsLine :
    (a b : Event) (m : Outcome Error (Event × World))
    → IsLine a b
    → Post Whatever (Kept b) m
    → Post Whatever (Kept a) m
still_IsLine a b (ok x) h k = IsLine-trans a b x.0 h k
still_IsLine a b (err e) h k = tt

format_log-IsLine :
    (env : Env) (fs : List Format) (e : Event) → Post Whatever (IsLine e) (format_log env fs e)
unfolding format_log
format_log-IsLine env [] e = (refl, refl)
format_log-IsLine env (f ∷ fs) e = elim (Option-cases (env.regex_match f.reg e.logstr)) [
  | inl x ↦ rw (x, format_log) (format_log-IsLine env fs e)
  | inr (gs, x) ↦
      rw (x, format_log) (Post-then (IsLine e) (fill f.fields gs e.fields) _ λ m. (refl, refl))
]

descend-IsLine :
    (next : Event → Rules → World → Outcome Error (Event × World))
    → ((e : Event) (rules : Rules) (w : World) → Post Whatever (Kept e) (next e rules w))
    → (e : Event) (top : List Candidate) (w : World) → Post Whatever (Kept e) (descend next e top w)
unfolding descend go_on update_event add_groups
descend-IsLine next keeps e [] w = (refl, refl)
descend-IsLine next keeps e (c ∷ cs) w = elim (Option-cases (best (c ∷ cs))) [
  | inl b ↦ rw b tt
  | inr (fit, b) ↦ rw b (keeps (update_event e fit.info fit.fields fit.traits) _ _)
]

check_top_rules-IsLine :
    (fuel : ℕ) (env : Env) (e : Event) (rules : Rules) (w : World)
    → Post Whatever (Kept e) (check_top_rules fuel env e rules w)
unfolding check_top_rules
check_top_rules-IsLine zero env e rules w = tt
check_top_rules-IsLine (suc fuel) env e rules w =
    Post-then (Kept e) (gather env e rules w) _
      λ a. descend-IsLine (check_top_rules fuel env) (check_top_rules-IsLine fuel env) e a.0 a.1

line_of :
    (env : Env) (rules : RuleCfg) (se : SourceEvent) (w : World)
    → Post Whatever (Kept (event_of env se)) (process_log env rules se w)
unfolding process_log
line_of env rules se w =
    Post-bind Whatever (IsLine (event_of env se)) _ _ _
      (format_log-IsLine env rules.formats (event_of env se))
      λ e h.
        Post-bind Whatever (Kept e) _ _ _ (check_top_rules-IsLine _ env e rules.std_rules w) λ a k.
          still_IsLine (event_of env se) a.0 _ (IsLine-trans (event_of env se) e a.0 h k)
            (check_top_rules-IsLine _ env a.0 rules.group_rules a.1)

-- An event carries the message of its log line, and whether it is a control message, unchanged
-- through all formats and rules.
pub process_log-IsLine :
    (env : Env) (rules : RuleCfg) (se : SourceEvent) (w : World) {a : Event × World}
    → process_log env rules se w ≡ ok a
    → (a.0.logstr ≡ se.message) × (a.0.control_message ≡ se.control_message)
unfolding event_of
process_log-IsLine env rules se w e =
    Post-eq-ok (Kept (event_of env se)) (process_log env rules se w) (line_of env rules se w) e
