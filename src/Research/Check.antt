-- ===== src/Research/Check.antt =====
pub mod Safe
pub mod Window
pub mod Demands
pub mod Match
-- `check_rule` of src/research/process_log.cpp. The text that `verbose` prints is not modelled.
use ctguard.Base.{
  ℕ, zero, suc, ◌+◌, ◌%◌, Bool, true, false, not, ◌&&◌, ◌||◌, List, [], ◌∷◌, ◌++◌, Option, none,
  some, ltb, leb, ◌==◌, if◌then◌else◌, Bytes, codes, beq, is_empty, length, lookup, contains,
  nat_key, text_key, ok, err, ◌>>=◌,
}
use ctguard.Research.Types.{
  Event, RuleInfo, RuleMatch, exact, regex, empty, Triggers, Fields, Saved, RuleState, fresh_state,
}
use ctguard.Research.Env.{
  Env, World, Result, unknown_child, bad_regex, out_of_range, state_at, put_state, now, tick,
}
use ctguard.Research.Event.{update}

-- `std::multimap::emplace`: behind the entries of the same time.
unfoldable pub save : ℕ → Event → Saved → Saved
save t e [] = (t, e) ∷ []
save t e ((u, f) ∷ m) = if ltb t u then (t, e) ∷ (u, f) ∷ m else (u, f) ∷ save t e m

-- The loop that deletes old entries, and stops at the first that is young enough.
unfoldable pub drop_old : ℕ → ℕ → Saved → Saved
drop_old time current [] = []
drop_old time current ((t, e) ∷ m) =
    if ltb (t + time) current then drop_old time current m else (t, e) ∷ m

-- The event's field `key` has this value.
unfoldable pub has_value : Bytes → Bytes → Event → Bool
has_value key value e = elim (lookup key e.fields) [ none ↦ false | some v ↦ beq value v ]

-- The logs of the saved events, a line each.
unfoldable pub trigger_logs : Saved → Bytes
trigger_logs [] = []
trigger_logs ((t, e) ∷ m) = e.logstr ++ (b'\n' ∷ trigger_logs m)

-- The loop over the saved events with the same field: `same_rate` is a 16-bit number.
unfoldable pub count_same : Bytes → Bytes → Saved → ℕ → Bytes → ℕ × Bytes
count_same key value [] rate logs = (rate, logs)
count_same key value ((t, e) ∷ m) rate logs =
    let hit = has_value key value e in
    count_same key value m (if hit then (rate + 1) % 65536 else rate)
      (if hit then logs ++ (e.logstr ++ (b'\n' ∷ [])) else logs)

-- `match_something`, `is_active` and `modified_traits` after the part on the activation group.
pub record Activation : Type 0 where
  pub matched : Bool
  pub active : Bool
  pub traits : Fields

inactive : Bool → Activation
inactive found = record { matched = found; active = false; traits = [] }

active_by : Bool → Bytes → Bytes → Activation
active_by found trait logs = record { matched = found; active = true; traits = (trait, logs) ∷ [] }

-- The verdict on the saved events that are left.
unfoldable pub judge_saved : RuleInfo → Event → Bool → Saved → Activation
unfolding inactive active_by
judge_saved rl ev found saved =
    if leb rl.activation_group.rate (length saved)
    then (if is_empty rl.same_field
        then active_by found (codes "trigger_logs") (trigger_logs saved)
        else elim (lookup rl.same_field ev.fields) [
          | none ↦ inactive found
          | some value ↦
              (let (same_rate, logs) = count_same rl.same_field value saved 0 [] in
                if leb rl.activation_group.rate same_rate
                then active_by found (codes "trigger_same_logs") logs
                else inactive found)
        ])
    else inactive found

-- With a state at hand: the event is saved, old entries go, and what is left is judged.
unfoldable pub check_saved : Env → RuleInfo → Event → Bool → RuleState → World → Activation × World
unfolding judge_saved save drop_old
check_saved env rl ev found s w =
    let saved : Saved = if found then save (now env w) ev s.mevents else s.mevents in
    let w1 : World = if found then tick w else w in
    let kept : Saved = drop_old rl.activation_group.time (now env w1) saved in
    (judge_saved rl ev found kept, put_state rl.id (record s { mevents = kept }) (tick w1))

unfoldable pub check_activation : Env → RuleInfo → Event → World → Activation × World
unfolding check_saved inactive
check_activation env rl ev w =
    if is_empty rl.activation_group.group_name
    then (record { matched = false; active = true; traits = [] }, w)
    else (let found = contains rl.activation_group.group_name ev.groups in
        elim (lookup rl.id w.states) [
          | some s ↦ check_saved env rl ev found s w
          | none ↦ (
            inactive found,
            if found
                then tick
                    (put_state rl.id (record fresh_state { mevents = (now env w, ev) ∷ [] }) w)
                else w,
          )
        ])

-- The part on `unless_rule`.
unfoldable pub check_unless : Env → RuleInfo → Event → World → Result World
unfolding update
check_unless env rl ev w =
    if contains ev.rule_id rl.parent_ids
    then ok (
        tick (
          put_state rl.id
            (record (state_at rl.id w) {
              unless_triggered = now env w;
              unless_timeout = rl.unless_rule.timeout;
              unless_event = update rl ev;
            })
            w))
    else if ev.rule_id == rl.unless_rule.id
    then ok (put_state rl.id (record (state_at rl.id w) { unless_triggered = 0 }) w)
    else err unknown_child

-- `trigger_group`: an empty one asks for nothing, and `!ALWAYS` is met by every event.
unfoldable pub group_matches : RuleInfo → Event → Bool
group_matches rl ev =
    is_empty rl.trigger_group
    || beq rl.trigger_group (codes "!ALWAYS")
    || contains rl.trigger_group ev.groups

-- One value against one trigger: the `switch` on `rule_match`.
unfoldable pub match_value : Env → RuleMatch → Bytes → Bytes → Result Bool
match_value env exact want value = ok (beq value want)
match_value env empty want value = ok (is_empty value)
match_value env regex want value = elim (env.mark_count want) [
  | none ↦ err bad_regex
  | some n ↦ ok (elim (env.regex_search want value) [ none ↦ false | some gs ↦ true ])
]

-- How the loop over the event's fields ends: by a mismatch, or with `found`.
pub data Scan : Type 0 where
  mismatch : Scan
  seen : Bool → Scan

unfoldable pub scan : Env → Bytes → RuleMatch → Bytes → Fields → Bool → Result Scan
scan env name rm want [] found = ok (seen found)
scan env name rm want ((k, value) ∷ fs) found =
    let rest = scan env name rm want fs found in
    let matched = scan env name rm want fs true in
    if beq k name
    then (match_value env rm want value >>= λ hit. if hit then matched else ok mismatch)
    else rest

abbrev pub is_empty_match : RuleMatch → Bool
is_empty_match empty = true
is_empty_match _ = false

-- What the code does at the end of the loop for one trigger.
abbrev pub scan_verdict : RuleMatch → Scan → Bool
scan_verdict rm mismatch = false
scan_verdict rm (seen found) = found || is_empty_match rm

-- `trigger_fields`, and in the same words `trigger_traits`.
unfoldable pub triggers_match : Env → Triggers → Fields → Result Bool
triggers_match env [] fs = ok true
triggers_match env ((name, (rm, want)) ∷ ts) fs =
    let rest = triggers_match env ts fs in
    scan env name rm want fs false >>= λ s. if scan_verdict rm s then rest else ok false

-- The captured texts that are not empty, each under its field's name.
unfoldable pub collect : List Bytes → List Bytes → Result Fields
collect names [] = ok []
collect [] (g ∷ gs) = let rest = collect [] gs in if is_empty g then rest else err out_of_range
collect (n ∷ ns) (g ∷ gs) =
    collect ns gs >>= λ rest. ok (if is_empty g then rest else (n, g) ∷ rest)

-- The text that the rule's expression is searched in.
unfoldable pub subject : Event → Bytes
subject ev = elim (lookup (codes "log") ev.fields) [ none ↦ ev.logstr | some v ↦ v ]

-- The part on `rl.reg()`: `none` where the expression is not found.
unfoldable pub search_reg : Env → Option Bytes → List Bytes → Bytes → Result (Option Fields)
search_reg env none names text = ok (some [])
search_reg env (some p) names text = elim (env.regex_search p text) [
  | none ↦ ok none
  | some gs ↦ (collect names gs >>= λ fs. ok (some fs))
]

unfoldable pub check_regex : Env → RuleInfo → Event → Result (Option Fields)
unfolding search_reg
check_regex env rl ev = search_reg env rl.reg rl.regex_fields (subject ev)

pub record Verdict : Type 0 where
  pub matches : Bool
  pub fields : Fields
  pub traits : Fields

abbrev refused : Activation → Verdict
refused a = record { matches = false; fields = []; traits = a.traits }

abbrev is_some {ℓ} : {A : Type ℓ} → Option A → Bool
is_some none = false
is_some (some a) = true

-- `match_something` at the end.
unfoldable pub asks_something : RuleInfo → Bool → Bool
asks_something rl matched =
    matched
    || not (is_empty rl.trigger_group)
    || not (is_empty rl.trigger_fields)
    || not (is_empty rl.trigger_traits)
    || is_some rl.reg
    || not (is_empty rl.parent_ids)

-- What is left to check behind the fields: the traits, and the expression.
unfoldable pub check_found : RuleInfo → Activation → Option Fields → Verdict
unfolding asks_something
check_found rl a none = refused a
check_found rl a (some fs) = record {
  matches = asks_something rl a.matched && a.active;
  fields = fs;
  traits = a.traits;
}

unfoldable pub check_traits : Env → RuleInfo → Event → Activation → Result Verdict
unfolding check_found
check_traits env rl ev a = triggers_match env rl.trigger_traits ev.traits >>= λ traits_hit.
    if not traits_hit
    then ok (refused a)
    else (check_regex env rl ev >>= λ found. ok (check_found rl a found))

-- The parts behind the activation group, each with its early return.
unfoldable pub check_conditions : Env → RuleInfo → Event → Activation → Result Verdict
unfolding check_traits
check_conditions env rl ev a =
    if not (group_matches rl ev)
    then ok (refused a)
    else (triggers_match env rl.trigger_fields ev.fields >>= λ fields_hit.
        if not fields_hit then ok (refused a) else check_traits env rl ev a)

unfoldable pub check_rule : Env → Event → RuleInfo → World → Result (Verdict × World)
check_rule env ev rl w =
    if not (rl.unless_rule.id == 0)
    then (check_unless env rl ev w >>= λ w'.
        ok (record { matches = false; fields = []; traits = [] }, w'))
    else (let (a, w') = check_activation env rl ev w in
        check_conditions env rl ev a >>= λ v. ok (v, w'))
