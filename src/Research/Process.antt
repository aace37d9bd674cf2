-- ===== src/Research/Process.antt =====
pub mod Select
pub mod Total
pub mod Unheard
pub mod Origin
-- `update_event`, `update_state`, `check_top_rules`, `format_log` and `process_log` of
-- src/research/process_log.cpp. The text that `verbose` prints is not modelled.
use ctguard.Base.{
  ℕ, zero, suc, Bool, not, ◌&&◌, ◌||◌, List, [], ◌∷◌, Option, none, some, ltb, ◌==◌, if◌then◌else◌,
  Bytes, codes, is_empty, lookup, assign, nat_key, text_key, ok, err, ◌>>=◌,
}
use ctguard.Research.Types.{
  SourceEvent, Event, RuleInfo, Rules, nil, cons, Fields, Saved, RuleCfg, Format,
}
use ctguard.Research.Env.{Env, World, Result, no_fitting_rule, out_of_range, too_deep, put_state}
use ctguard.Research.Event.{event_of, add_groups}
use ctguard.Research.Rule.{height}
use ctguard.Research.Check.{Verdict, check_rule, has_value}

-- `ev.fields()[first] = second` for each pair.
unfoldable pub assign_all : Fields → Fields → Fields
assign_all [] m = m
assign_all ((k, v) ∷ kvs) m = assign_all kvs (assign k v m)

unfoldable pub update_event : Event → RuleInfo → Fields → Fields → Event
unfolding add_groups assign_all
update_event ev rl modified_fields modified_traits = record (add_groups rl.groups ev) {
  description = rl.description;
  always_alert = rl.always_alert;
  priority = rl.priority;
  rule_id = rl.id;
  interventions = rl.interventions;
  fields = assign_all modified_fields ev.fields;
  traits = assign_all modified_traits ev.traits;
}

-- `erase_if` over the saved events with the same field.
unfoldable pub erase_same : Bytes → Bytes → Saved → Saved
erase_same key value [] = []
erase_same key value ((t, e) ∷ m) =
    if has_value key value e then erase_same key value m else (t, e) ∷ erase_same key value m

unfoldable pub update_state : RuleInfo → Event → World → World
unfolding erase_same
update_state rl ev w =
    if not (is_empty rl.activation_group.group_name) && rl.activation_group.reset
    then elim (lookup rl.id w.states) [
      | none ↦ w
      | some s ↦
          (if is_empty rl.same_field
            then put_state rl.id (record s { mevents = [] }) w
            else elim (lookup rl.same_field ev.fields) [
              | none ↦ w
              | some value ↦
                  put_state rl.id (record s { mevents = erase_same rl.same_field value s.mevents })
                    w
            ])
    ]
    else w

-- An entry of `top_matching_rules`.
pub record Candidate : Type 0 where
  pub info : RuleInfo
  pub children : Rules
  pub fields : Fields
  pub traits : Fields

-- The first loop of `check_top_rules`: every rule of the level is checked, in order.
unfoldable pub add_matching : RuleInfo → Rules → Verdict → List Candidate → List Candidate
add_matching r children v cs =
    if v.matches
    then record { info = r; children = children; fields = v.fields; traits = v.traits } ∷ cs
    else cs

unfoldable pub gather : Env → Event → Rules → World → Result (List Candidate × World)
gather env e nil w = ok ([], w)
gather env e (cons r children siblings) w = do
  (v, w1) ← check_rule env e r w
  (cs, w2) ← gather env e siblings w1
  ok (add_matching r children v cs, w2)

-- The second loop: the highest priority, and of these the lowest id.
unfoldable pub better : ℕ → ℕ → Candidate → Bool
better max_priority min_id c =
    ltb max_priority c.info.priority || (c.info.priority == max_priority && ltb c.info.id min_id)

unfoldable pub pick : ℕ → ℕ → Option Candidate → List Candidate → Option Candidate
pick max_priority min_id fit [] = fit
pick max_priority min_id fit (c ∷ cs) =
    let taken = pick c.info.priority c.info.id (some c) cs in
    let left = pick max_priority min_id fit cs in
    if better max_priority min_id c then taken else left

-- `static_cast<rule_id_t>(-1)`
abbrev pub max_rule_id : ℕ
max_rule_id = 4294967295

unfoldable pub best : List Candidate → Option Candidate
unfolding pick
best = pick 0 max_rule_id none

-- What follows the choice: the event and the state are updated, and `next` is the recursive call.
unfoldable pub go_on :
    (Event → Rules → World → Result (Event × World))
    → Event
    → Option Candidate
    → World
    → Result (Event × World)
unfolding update_event update_state
go_on next e none w = err no_fitting_rule
go_on next e (some fit) w =
    let e' = update_event e fit.info fit.fields fit.traits in
    next e' fit.children (update_state fit.info e' w)

unfoldable pub descend :
    (Event → Rules → World → Result (Event × World))
    → Event
    → List Candidate
    → World
    → Result (Event × World)
unfolding go_on
descend next e [] w = ok (e, w)
descend next e (c ∷ cs) w = go_on next e (best (c ∷ cs)) w

-- The recursion goes down one level at a time; the fuel bounds the depth.
unfoldable pub check_top_rules : ℕ → Env → Event → Rules → World → Result (Event × World)
check_top_rules zero env e rules w = err too_deep
check_top_rules (suc fuel) env e rules w = do
  (top, w1) ← gather env e rules w
  descend (check_top_rules fuel env) e top w1

-- `e.fields()[f.fields()[i - 1]] = match[i]` for each group.
unfoldable pub fill : List Bytes → List Bytes → Fields → Result Fields
fill names [] m = ok m
fill [] (g ∷ gs) m = err out_of_range
fill (n ∷ ns) (g ∷ gs) m = fill ns gs (assign n g m)

-- The first format that matches names the event's fields.
unfoldable pub format_log : Env → List Format → Event → Result Event
unfolding fill
format_log env [] e = ok (record e { traits = assign (codes "format") (codes "unknown") e.traits })
format_log env (f ∷ fs) e =
    let rest = format_log env fs e in
    elim (env.regex_match f.reg e.logstr) [
      | none ↦ rest
      | some gs ↦
          (fill f.fields gs e.fields >>= λ m.
          ok (record e { fields = m; traits = assign (codes "format") f.name e.traits }))
    ]

-- The fuel is the depth of the rules that are checked.
unfoldable pub process_log : Env → RuleCfg → SourceEvent → World → Result (Event × World)
process_log env rules se w = do
  e ← format_log env rules.formats (event_of env se)
  (e1, w1) ← check_top_rules (suc (height rules.std_rules)) env e rules.std_rules w
  check_top_rules (suc (height rules.group_rules)) env e1 rules.group_rules w1
