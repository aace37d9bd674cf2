-- ===== src/Intervention/Tasks/Accepted.antt =====
-- What becomes of commands under a configuration that was accepted.
use ctguard.Base.{
  ℕ, ◌≤◌, ◌≡◌, ◌≢◌, refl, Bool, true, false, List, [], ◌∷◌, Option, none, some, Bytes, ok, Elem,
  All, All-at, arith, if-both, if-cases, text_key, Bool-cases, Option-cases, inl, inr, beq, beq_iff,
  contains,
}
use ctguard.Research.Tasks.Intervention.{InterventionCmd}
use ctguard.Intervention.Config.{Config, InterventionAction, parse_config}
use ctguard.Intervention.Config.Ready.{IsReady, IsTaken, parse_config-AllReady}
use ctguard.Intervention.Child.{Ending}
use ctguard.Intervention.Child.Waiting.{wait_child-ends}
use ctguard.Intervention.Tasks.{
  find_action, Decision, run, no_action, bad_regex, no_match, whitelisted, check_action,
  check_argument, act_on, decide, Launch, no_pipes, no_child, started, Report, refused, aborted,
  ran, System, launch, process, goes_on, processing_task,
}
use ctguard.Intervention.Tasks.Permitted.{find_action-Elem}

module _ (compiles : Bytes → Bool) (sys : System) (cfg : Config) where
  abbrev Named : InterventionCmd → InterventionAction → Type 0
  Named icmd a = Elem a cfg.actions × (a.name ≡ icmd.name)

  -- What has to be for a decision. The expression of an action is one that the configuration took, or
  -- it is not set; `regex_match` may fail on it all the same.
  abbrev Grounds : InterventionCmd → Decision → Type 0
  Grounds icmd no_action = All (λ a. a.name ≢ icmd.name) cfg.actions
  Grounds icmd bad_regex =
      (a : InterventionAction) × Named icmd a
      × IsTaken compiles a.regex
      × (sys.regex_match a.regex icmd.argument ≡ none)
  Grounds icmd no_match =
      (a : InterventionAction) × Named icmd a × (sys.regex_match a.regex icmd.argument ≡ some false)
  Grounds icmd whitelisted =
      (a : InterventionAction) × Named icmd a
      × (sys.regex_match a.regex icmd.argument ≡ some true)
      × (contains icmd.argument a.whitelist ≡ true)
  Grounds icmd (run a) = Elem a cfg.actions

  abbrev Refused : InterventionCmd → Decision → Type 0
  Refused icmd (run a) = ⊥
  Refused icmd d = Grounds icmd d

  -- A command is refused with grounds; one that is run is a command, and the wait for it ends within
  -- the action's timeout.
  abbrev pub Answered : Report → Type 0
  Answered (refused icmd d) = Refused icmd d
  Answered (aborted icmd) = Unit
  Answered (ran icmd action calls end out err) =
      (action.command ≢ [])
      × ((e : Ending) × (k : ℕ) × (end ≡ some (e, k)) × (k ≤ action.command_timeout))

no_action-named :
    (name : Bytes) (actions : List InterventionAction)
    → find_action name actions ≡ none
    → All (λ a. a.name ≢ name) actions
unfolding find_action
no_action-named name [] e = tt
no_action-named name (a ∷ actions) e = elim (Bool-cases (beq a.name name)) [
  | inl y ↦ absurd (let wrong : some a ≡ none = rw y at e in cc)
  | inr n ↦
      ((λ same. ground (arith, beq_iff a.name name)), no_action-named name actions (rw n at e))
]

module _ (compiles : Bytes → Bool) (sys : System) (cfg : Config)
    (ready : All (IsReady compiles) cfg.actions) where
  check_argument-Grounds :
      (icmd : InterventionCmd) (a : InterventionAction) (o : Option Bool)
      → Named compiles sys cfg icmd a
      → sys.regex_match a.regex icmd.argument ≡ o
      → Grounds compiles sys cfg icmd (check_argument a icmd.argument o)
  unfolding check_argument
  check_argument-Grounds icmd a none m e =
      (a, m, (All-at (IsReady compiles) a cfg.actions ready m.0).2, e)
  check_argument-Grounds icmd a (some false) m e = (a, m, e)
  check_argument-Grounds icmd a (some true) m e =
      if-cases (Grounds compiles sys cfg icmd) (contains icmd.argument a.whitelist) whitelisted
        (run a) (λ y. (a, m, e, y)) (λ n. m.0)

  decide-Grounds :
      (icmd : InterventionCmd) → Grounds compiles sys cfg icmd (decide sys.regex_match cfg icmd)
  unfolding decide check_action
  decide-Grounds icmd = elim (Option-cases (find_action icmd.name cfg.actions)) [
    | inl n ↦ rw n (no_action-named icmd.name cfg.actions n)
    | inr (a, f) ↦
        rw f (check_argument-Grounds icmd a _ (find_action-Elem icmd.name cfg.actions a f) refl)
  ]

  launch-Answered :
      (icmd : InterventionCmd) (action : InterventionAction) (l : Launch)
      → Elem action cfg.actions
      → Answered compiles sys cfg (launch sys icmd action l)
  unfolding launch
  launch-Answered icmd action no_pipes m = tt
  launch-Answered icmd action no_child m = tt
  launch-Answered icmd action (started waitpid out err) m =
      let (k, found) = wait_child-ends waitpid action.command_timeout in
      ((All-at (IsReady compiles) action cfg.actions ready m).1, (_, k, found.0, found.2))

  act_on-Answered :
      (icmd : InterventionCmd) (l : Launch) (d : Decision)
      → Grounds compiles sys cfg icmd d
      → Answered compiles sys cfg (act_on sys icmd l d)
  unfolding act_on
  act_on-Answered icmd l (run a) g = launch-Answered icmd a l g
  act_on-Answered icmd l no_action g = g
  act_on-Answered icmd l bad_regex g = g
  act_on-Answered icmd l no_match g = g
  act_on-Answered icmd l whitelisted g = g

  jobs-Answered :
      (jobs : List ((InterventionCmd × Bool) × Launch))
      → All (Answered compiles sys cfg) (processing_task sys cfg jobs)
  unfolding processing_task process
  jobs-Answered [] = tt
  jobs-Answered (((icmd, true), l) ∷ rest) = tt
  jobs-Answered (((icmd, false), l) ∷ rest) = (
    act_on-Answered icmd l (decide sys.regex_match cfg icmd) (decide-Grounds icmd),
    if-both (All (Answered compiles sys cfg)) (goes_on (process sys cfg icmd l)) _ _
        (jobs-Answered rest) tt,
  )

-- Under a configuration that parse_config accepted, processing_task runs no empty command, and the
-- wait for each child ends within the action's timeout. A command is refused only if no action has
-- its name, or if one has it and regex_match says no to the argument, or fails on the expression,
-- which the configuration took or which is not set, or if the argument is in the whitelist.
pub processing_task-Answered :
    (compiles : Bytes → Bool) (sys : System) (file : Option Bytes) (cfg : Config)
    (jobs : List ((InterventionCmd × Bool) × Launch))
    → parse_config compiles file ≡ ok cfg
    → All (Answered compiles sys cfg) (processing_task sys cfg jobs)
processing_task-Answered compiles sys file cfg jobs accepted =
    jobs-Answered compiles sys cfg (parse_config-AllReady compiles file cfg accepted) jobs
