-- ===== src/Research/Tasks/Intervention.antt =====
-- `intervention_task`: interventions are handed to the sink, and kept where it fails.
pub mod Kept
use ctguard.Base.{
  ℕ, Bool, true, false, List, [], ◌∷◌, ◌++◌, Option, none, some, Bytes, if◌then◌else◌,
}
use ctguard.Sink.{resend}
use ctguard.Research.Tasks.Processing.{Intervention}

-- `libs::intervention_cmd`
pub record InterventionCmd : Type 0 where
  pub name : Bytes
  pub argument : Bytes

abbrev pub cmd_of : Intervention → InterventionCmd
cmd_of i = record { name = i.name; argument = i.argument }

-- A round of the loop, with what `take` gives within a second. The first part of the result says
-- whether the thread ends.
unfoldable pub intervention_round :
    (ℕ → Bool)
    → Option Intervention
    → List InterventionCmd
    → Bool × List InterventionCmd × List InterventionCmd
unfolding resend
intervention_round sink none q = let (sent, left) = resend sink 0 q in (false, sent, left)
intervention_round sink (some i) q =
    let (sent, left) = resend sink 0 q in
    if i.kill
    then (true, sent, left)
    else if sink 0
    then (false, cmd_of i ∷ [], q)
    else (false, [], q ++ (cmd_of i ∷ []))

abbrev pub Round : Type 0
Round = (ℕ → Bool) × Option Intervention

-- What is sent in all, and what waits at the end; at the end of the thread that is discarded.
unfoldable pub intervention_task :
    List Round → List InterventionCmd → List InterventionCmd × List InterventionCmd
unfolding intervention_round
intervention_task [] q = ([], q)
intervention_task ((sink, input) ∷ rs) q =
    let (stop, sent, left) = intervention_round sink input q in
    let (more, rest) = intervention_task rs left in
    if stop then (sent, left) else (sent ++ more, rest)
