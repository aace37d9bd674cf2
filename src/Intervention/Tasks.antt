-- ===== src/Intervention/Tasks.antt =====
-- `processing_task` and `input_task` of src/intervention/daemon.cpp. What the system does with each
-- command is given: whether the pipes and the child could be made, the results of `waitpid`, and what
-- is read from the pipes.
pub mod Permitted
pub mod Accepted
use ctguard.Base.{
  ℕ, suc, ◌+◌, Bool, true, false, List, [], ◌∷◌, ◌++◌, Option, none, some, Bytes, beq,
  if◌then◌else◌, contains, text_key,
}
use ctguard.Research.Tasks.Intervention.{InterventionCmd}
use ctguard.Research.Tasks.Input.{Reception, failed, received, ends_burst}
use ctguard.Intervention.Config.{Config, InterventionAction}
use ctguard.Intervention.Action.{Host, Call, run_cmd}
use ctguard.Intervention.Child.{WaitResult, Ending, wait_child, ReadResult, drain}

unfoldable pub find_action : Bytes → List InterventionAction → Option InterventionAction
unfolding beq
find_action name [] = none
find_action name (a ∷ actions) = if beq a.name name then some a else find_action name actions

-- Why a command is not run, or the action that is.
pub data Decision : Type 0 where
  no_action bad_regex no_match whitelisted : Decision
  run : InterventionAction → Decision

-- The checks before the child is made, with the result of `regex_match`, which is none where the
-- expression is no expression.
unfoldable pub check_argument : InterventionAction → Bytes → Option Bool → Decision
unfolding contains
check_argument action argument none = bad_regex
check_argument action argument (some false) = no_match
check_argument action argument (some true) =
    if contains argument action.whitelist then whitelisted else run action

unfoldable pub check_action :
    (Bytes → Bytes → Option Bool) → Bytes → Option InterventionAction → Decision
unfolding check_argument
check_action regex_match argument none = no_action
check_action regex_match argument (some action) =
    check_argument action argument (regex_match action.regex argument)

unfoldable pub decide : (Bytes → Bytes → Option Bool) → Config → InterventionCmd → Decision
unfolding find_action check_action
decide regex_match cfg icmd =
    check_action regex_match icmd.argument (find_action icmd.name cfg.actions)

pub data Launch : Type 0 where
  no_pipes no_child : Launch
  started : (ℕ → WaitResult) → List ReadResult → List ReadResult → Launch

-- What comes of a command: it is not run; the system refuses, which ends the task; or the child
-- makes its calls, its end is waited for, and its output is logged.
pub data Report : Type 0 where
  refused : InterventionCmd → Decision → Report
  aborted : InterventionCmd → Report
  ran :
      InterventionCmd
      → InterventionAction
      → List Call
      → Option (Ending × ℕ)
      → List Bytes
      → List Bytes
      → Report

pub record System : Type 0 where
  pub host : Host
  pub unit_test : Bool
  pub regex_match : Bytes → Bytes → Option Bool

-- The fuel of the waiting is one more than the timeout.
unfoldable pub launch : System → InterventionCmd → InterventionAction → Launch → Report
unfolding run_cmd wait_child drain
launch sys icmd action no_pipes = aborted icmd
launch sys icmd action no_child = aborted icmd
launch sys icmd action (started waitpid out err) =
    ran icmd action (run_cmd sys.host sys.unit_test action icmd.argument)
      (wait_child (suc action.command_timeout) waitpid action.command_timeout 0) (drain out)
      (drain err)

unfoldable pub act_on : System → InterventionCmd → Launch → Decision → Report
unfolding launch
act_on sys icmd l (run action) = launch sys icmd action l
act_on sys icmd l d = refused icmd d

unfoldable pub process : System → Config → InterventionCmd → Launch → Report
unfolding decide act_on
process sys cfg icmd l = act_on sys icmd l (decide sys.regex_match cfg icmd)

-- Whether the task goes on.
unfoldable pub goes_on : Report → Bool
goes_on (aborted icmd) = false
goes_on _ = true

-- The commands with their kill flags, and what the system does with each.
unfoldable pub processing_task :
    System → Config → List ((InterventionCmd × Bool) × Launch) → List Report
unfolding process goes_on
processing_task sys cfg [] = []
processing_task sys cfg (((icmd, kill), l) ∷ rest) =
    let more = processing_task sys cfg rest in
    if kill
    then []
    else process sys cfg icmd l ∷ (if goes_on (process sys cfg icmd l) then more else [])

-- `input_task`: what a reception adds to the queue, with the kill flag false. cereal's decoder is a
-- parameter.
unfoldable pub handle : (Bytes → Option InterventionCmd) → Reception → List (InterventionCmd × Bool)
handle decode failed = []
handle decode (received datagram) = elim (decode datagram) [
  | none ↦ []
  | some icmd ↦ (icmd, false) ∷ []
]

-- What the loops queue, and whether they have ended. With each reception stands the flag `RUNNING`
-- where the outer loop tests it next.
unfoldable pub receive :
    (Bytes → Option InterventionCmd)
    → List (Reception × Bool)
    → List (InterventionCmd × Bool) × Bool
unfolding handle ends_burst
receive decode [] = ([], false)
receive decode ((r, running) ∷ rs) =
    let (more, stopped) = receive decode rs in
    let taken = handle decode r in
    if ends_burst r
    then (if running then (taken ++ more, stopped) else (taken, true))
    else (taken ++ more, stopped)

-- At the end an empty command with the kill flag is queued.
unfoldable pub input_task :
    (Bytes → Option InterventionCmd) → List (Reception × Bool) → List (InterventionCmd × Bool)
unfolding receive
input_task decode rs =
    let (out, stopped) = receive decode rs in
    if stopped then out ++ ((record { name = []; argument = [] }, true) ∷ []) else out
