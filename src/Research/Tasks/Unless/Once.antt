-- ===== src/Research/Tasks/Unless/Once.antt =====
-- When the event of an `unless_rule` is sent.
use ctguard.Base.{
  ℕ, ◌+◌, ◌<◌, ◌≡◌, ◌≢◌, refl, ap, ◌∙◌, true, false, not, ◌&&◌, List, [], ◌∷◌, ltb, ◌==◌, ==_iff,
  if◌then◌else◌, All, inl, inr, ◌⊎◌, lookup, lookup-assign, contains, nat_key, ok, arith,
}
use ctguard.Research.Types.{Event, RuleInfo, RuleState, States}
use ctguard.Research.Env.{Env, World, now, tick, state_at, put_state}
use ctguard.Research.Config.{Config}
use ctguard.Research.Event.{update}
use ctguard.Research.Check.{check_unless}
use ctguard.Research.Tasks.Processing.{is_worthy}
use ctguard.Research.Tasks.Unless.{is_armed, is_due, fire, fire_all, state_round}

-- No state is armed and due at the time.
abbrev pub AllCalm : ℕ → States → Type 0
AllCalm time m = All (λ p. (is_armed p.1 && is_due p.1 time) ≡ false) m

module _ (env : Env) (cfg : Config) (time : ℕ) (stopped : (n : ℕ) → env.clock n ≡ time) where
  fire_all-AllCalm : (m : States) (ticks : ℕ) → AllCalm time (fire_all env cfg m ticks).0
  unfolding fire_all fire
  fire_all-AllCalm [] ticks = tt
  fire_all-AllCalm ((id, s) ∷ m) ticks =
      (ground (arith, stopped ticks), fire_all-AllCalm m (if is_armed s then ticks + 1 else ticks))

  calm-fire_all :
      (m : States) (ticks : ℕ)
      → AllCalm time m
      → ((fire_all env cfg m ticks).0 ≡ m) × ((fire_all env cfg m ticks).2 ≡ [])
  unfolding fire_all fire
  calm-fire_all [] ticks h = (refl, refl)
  calm-fire_all ((id, s) ∷ m) ticks h =
      let ih = calm-fire_all m (if is_armed s then ticks + 1 else ticks) h.1 in
      ground (arith, stopped ticks)

  -- While the clock stands, a second round of `state_task` sends nothing and changes no state: an
  -- event that was due has been sent once.
  pub state_round-again :
      (w : World)
      → ((state_round env cfg (state_round env cfg w).0).0.states
          ≡ (state_round env cfg w).0.states)
        × ((state_round env cfg (state_round env cfg w).0).1 ≡ [])
  unfolding state_round
  state_round-again w = calm-fire_all _ _ (fire_all-AllCalm w.states w.ticks)

-- What is sent for an event that armed the rule at `start`, at the clock's reading `time`.
abbrev pub due_event : Config → RuleInfo → Event → ℕ → ℕ → List Event
due_event cfg rl ev start time =
    if not (start == 0) && ltb (start + rl.unless_rule.timeout) time
    then (if is_worthy cfg (update rl ev) then update rl ev ∷ [] else [])
    else []

state_at-put : (id : ℕ) (s : RuleState) (w : World) → state_at id (put_state id s w) ≡ s
state_at-put id s w = rw (lookup-assign id id s w.states, (==_iff id id).1 refl)

abbrev armed : Env → RuleInfo → Event → World → RuleState
armed env rl ev w = record (state_at rl.id w) {
  unless_triggered = now env w;
  unless_timeout = rl.unless_rule.timeout;
  unless_event = update rl ev;
}

abbrev disarmed : RuleInfo → World → RuleState
disarmed rl w = record (state_at rl.id w) { unless_triggered = 0 }

-- The two ways in which the check of an `unless_rule` ends.
abbrev Ends : Env → RuleInfo → Event → World → World → Type 0
Ends env rl ev w w' =
    ((contains ev.rule_id rl.parent_ids ≡ true)
      × (w' ≡ tick (put_state rl.id (armed env rl ev w) w)))
    ⊎ ((contains ev.rule_id rl.parent_ids ≡ false) × (w' ≡ put_state rl.id (disarmed rl w) w))

check_unless-Ends :
    (env : Env) (rl : RuleInfo) (ev : Event) (w w' : World)
    → check_unless env rl ev w ≡ ok w'
    → Ends env rl ev w w'
unfolding check_unless
check_unless-Ends env rl ev w w' e = ground arith

fire-armed :
    (env : Env) (cfg : Config) (rl : RuleInfo) (ev : Event) (w : World) (time : ℕ)
    → (fire cfg (armed env rl ev w) time).1 ≡ due_event cfg rl ev (now env w) time
unfolding fire
fire-armed env cfg rl ev w time = ground arith

fire-left :
    (env : Env) (cfg : Config) (rl : RuleInfo) (ev : Event) (w : World) (time : ℕ)
    → (fire cfg (armed env rl ev w) time).0.unless_triggered
      ≡ (if ltb (now env w + rl.unless_rule.timeout) time then 0 else now env w)
unfolding fire
fire-left env cfg rl ev w time = ground arith

fire-disarmed :
    (cfg : Config) (rl : RuleInfo) (w : World) (time : ℕ) → (fire cfg (disarmed rl w) time).1 ≡ []
unfolding fire
fire-disarmed cfg rl w time = refl

disarmed-left :
    (cfg : Config) (rl : RuleInfo) (w : World) (time : ℕ)
    → (fire cfg (disarmed rl w) time).0.unless_triggered ≡ 0
unfolding fire
disarmed-left cfg rl w time = refl

lookup-put :
    (id j : ℕ) (s : RuleState) (w : World)
    → id ≢ j
    → lookup j (put_state id s w).states ≡ lookup j w.states
lookup-put id j s w ne = lookup-assign id j s w.states ∙ ground arith

-- The protocol of an `unless_rule`, whose check reads the clock. After an event of one of its parents:
-- at a reading of the clock that lies more than the timeout later, the rule's own event is sent, if
-- that event's priority suffices for an alert or that event has `always_alert`, and the first reading
-- was not 0; with that or without, the rule is no longer armed then. At an earlier reading nothing is
-- sent, and the rule stays armed since the first one. After an event of the other rule nothing is sent at any
-- reading, and the rule is not armed. The check leaves the other rules' states as they are.
pub unless_protocol :
    (env : Env) (cfg : Config) (rl : RuleInfo) (ev : Event) (w w' : World) (time : ℕ)
    → check_unless env rl ev w ≡ ok w'
    → ((fire cfg (state_at rl.id w') time).1
        ≡ (if contains ev.rule_id rl.parent_ids then due_event cfg rl ev (now env w) time else []))
      × ((fire cfg (state_at rl.id w') time).0.unless_triggered ≡ (
          if contains ev.rule_id rl.parent_ids
          then (if ltb (now env w + rl.unless_rule.timeout) time then 0 else now env w)
          else 0))
      × ((j : ℕ) → rl.id ≢ j → lookup j w'.states ≡ lookup j w.states)
unless_protocol env cfg rl ev w w' time e = elim (check_unless-Ends env rl ev w w' e) [
  | inl (c, q) ↦
      rw (q, c)
        (
          ap (λ s. (fire cfg s time).1) (state_at-put rl.id (armed env rl ev w) w)
              ∙ fire-armed env cfg rl ev w time,
          ap (λ s. (fire cfg s time).0.unless_triggered) (state_at-put rl.id (armed env rl ev w) w)
              ∙ fire-left env cfg rl ev w time,
          (λ j ne. lookup-put rl.id j (armed env rl ev w) w ne),
        )
  | inr (c, q) ↦
      rw (q, c)
        (
          ap (λ s. (fire cfg s time).1) (state_at-put rl.id (disarmed rl w) w)
              ∙ fire-disarmed cfg rl w time,
          ap (λ s. (fire cfg s time).0.unless_triggered) (state_at-put rl.id (disarmed rl w) w)
              ∙ disarmed-left cfg rl w time,
          (λ j ne. lookup-put rl.id j (disarmed rl w) w ne),
        )
]

-- An `unless_rule` of low priority is never sent for an event whose last rule does not always
-- alert, even if the rule itself has `always_alert`.
pub unless_silent :
    (env : Env) (cfg : Config) (rl : RuleInfo) (ev : Event) (w w' : World) (time : ℕ)
    → check_unless env rl ev w ≡ ok w'
    → rl.priority < cfg.log_priority
    → ev.always_alert ≡ false
    → (fire cfg (state_at rl.id w') time).1 ≡ []
unfolding is_worthy update
unless_silent env cfg rl ev w w' time e low quiet =
    (unless_protocol env cfg rl ev w w' time e).0 ∙ ground arith
