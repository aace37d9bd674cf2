-- ===== src/Research/Tasks/Unless.antt =====
-- `state_task`: every half second it looks for `unless_rule`s whose time has run out.
pub mod Once
use ctguard.Base.{
  ℕ, suc, ◌+◌, Bool, true, false, not, ◌&&◌, List, [], ◌∷◌, ◌++◌, ltb, ◌==◌, if◌then◌else◌,
}
use ctguard.Research.Types.{Event, RuleState, States}
use ctguard.Research.Env.{Env, World, now, tick}
use ctguard.Research.Config.{Config}
use ctguard.Research.Tasks.Processing.{is_worthy}

-- `unless_triggered != 0`: the clock is read for such a state.
abbrev pub is_armed : RuleState → Bool
is_armed s = not (s.unless_triggered == 0)

abbrev pub is_due : RuleState → ℕ → Bool
is_due s time = ltb (s.unless_triggered + s.unless_timeout) time

-- One rule's state at the clock's reading `time`.
unfoldable pub fire : Config → RuleState → ℕ → RuleState × List Event
fire cfg s time =
    if is_armed s && is_due s time
    then (
      record s { unless_triggered = 0 },
      if is_worthy cfg s.unless_event then s.unless_event ∷ [] else [],
    )
    else (s, [])

-- The loop over the states: what they become, how often the clock was read, and the output.
unfoldable pub fire_all : Env → Config → States → ℕ → States × ℕ × List Event
fire_all env cfg [] ticks = ([], ticks, [])
fire_all env cfg ((id, s) ∷ m) ticks =
    let (s', out) = fire cfg s (env.clock ticks) in
    let (m', ticks', outs) = fire_all env cfg m (if is_armed s then ticks + 1 else ticks) in
    ((id, s') ∷ m', ticks', out ++ outs)

-- One round of `state_task`.
unfoldable pub state_round : Env → Config → World → World × List Event
unfolding fire_all
state_round env cfg w =
    let (m, ticks, out) = fire_all env cfg w.states w.ticks in
    (record w { states = m; ticks = ticks }, out)
