-- ===== src/Research/Tasks/Processing.antt =====
-- `processing_task`: source events in, alerts and interventions out. The queues are lists, the
-- oldest entry first; a run stops where the input does, with the thread waiting in `take`, unless a
-- kill message has ended it before.
pub mod Forward
use ctguard.Base.{
  ℕ, Bool, true, false, ◌&&◌, ◌||◌, List, [], ◌∷◌, ◌++◌, Option, none, some, leb, if◌then◌else◌,
  Bytes, codes, beq, lookup, text_key, ok, ◌>>=◌,
}
use ctguard.Research.Types.{SourceEvent, Event, InterventionRule, Fields, RuleCfg}
use ctguard.Research.Env.{Env, World, Result}
use ctguard.Research.Config.{Config}
use ctguard.Research.Event.{event_of}
use ctguard.Research.Process.{process_log}

-- `intervention_t`
pub record Intervention : Type 0 where
  pub name : Bytes
  pub argument : Bytes
  pub kill : Bool

-- What the thread has left, and whether it has ended.
pub record Pipes : Type 0 where
  pub world : World
  pub alerts : List Event
  pub interventions : List Intervention
  pub ended : Bool

unfoldable pub is_kill : SourceEvent → Bool
is_kill se = se.control_message && beq se.message (codes "!KILL")

-- The loop over the event's interventions: one whose field the event has is queued.
unfoldable pub orders : Fields → List InterventionRule → List Intervention
orders fs [] = []
orders fs (i ∷ is) = elim (lookup i.field fs) [
  | none ↦ orders fs is
  | some v ↦ record { name = i.name; argument = v; kill = false } ∷ orders fs is
]

-- `e.priority() >= cfg.log_priority || e.always_alert()`
unfoldable pub is_worthy : Config → Event → Bool
is_worthy cfg e = leb cfg.log_priority e.priority || e.always_alert

unfoldable pub forward : Config → Event → Pipes → Pipes
unfolding is_worthy orders
forward cfg e p =
    if is_worthy cfg e
    then record p {
      alerts = p.alerts ++ (e ∷ []);
      interventions = p.interventions ++ orders e.fields e.interventions;
    }
    else p

-- At the kill message the other threads are told, and the thread ends.
unfoldable pub shut_down : Env → SourceEvent → Pipes → Pipes
shut_down env se p = record p {
  alerts = p.alerts ++ (event_of env se ∷ []);
  interventions = p.interventions ++ (record { name = []; argument = []; kill = true } ∷ []);
  ended = true;
}

unfoldable pub processing_task : Env → Config → RuleCfg → List SourceEvent → Pipes → Result Pipes
processing_task env cfg rules [] p = ok p
processing_task env cfg rules (se ∷ ses) p =
    let stopped = ok (shut_down env se p) in
    let rest = (λ (a : Event × World).
      processing_task env cfg rules ses (forward cfg a.0 (record p { world = a.1 }))) in
    if is_kill se then stopped else (process_log env rules se p.world >>= rest)
