-- ===== src/Intervention/Tasks/Permitted.antt =====
-- What ctguard-intervention runs.
use ctguard.Base.{
  ◌≡◌, ◌≢◌, refl, sym, Bool, true, false, List, [], ◌∷◌, Option, none, some, Bytes, beq, beq_iff,
  contains, text_key, Elem, All, inl, inr, arith, Bool-cases, Option-cases, if-both,
}
use ctguard.Research.Tasks.Intervention.{InterventionCmd}
use ctguard.Intervention.Config.{Config, InterventionAction}
use ctguard.Intervention.Action.{Host, Call, execute}
use ctguard.Intervention.Action.Privileges.{GroupSet, UserSet, run_cmd-privileges}
use ctguard.Intervention.Tasks.{
  find_action, Decision, run, no_action, whitelisted, check_action, check_argument, act_on, decide,
  Launch, no_pipes, no_child, started, Report, refused, aborted, ran, System, launch, process,
  goes_on, processing_task,
}

-- The command that a child gets to is that of the action, with the argument that was sent, as the
-- configured group and user.
abbrev pub Contained : Host → InterventionAction → Bytes → List Call → Type 0
Contained host action argument calls =
    (cmd arg : Bytes)
    → Elem (execute cmd arg) calls
    → (cmd ≡ action.command)
      × (arg ≡ argument)
      × (action.group ≢ [] → GroupSet host action.group (execute cmd arg) calls)
      × (action.user ≢ [] → UserSet host action.user (execute cmd arg) calls)

-- A child is made only for an action of the configuration that has the command's name, whose
-- expression matches the whole argument, and whose whitelist does not hold it.
abbrev pub Permitted : System → Config → Report → Type 0
Permitted sys cfg (refused icmd d) = Unit
Permitted sys cfg (aborted icmd) = Unit
Permitted sys cfg (ran icmd action calls end out err) =
    Elem action cfg.actions
    × (action.name ≡ icmd.name)
    × (sys.regex_match action.regex icmd.argument ≡ some true)
    × (contains icmd.argument action.whitelist ≡ false)
    × Contained sys.host action icmd.argument calls

some-inj : {A : Type 0} (a b : A) → some a ≡ some b → a ≡ b
some-inj a b e = ground arith

pub find_action-Elem :
    (name : Bytes) (actions : List InterventionAction) (a : InterventionAction)
    → find_action name actions ≡ some a
    → Elem a actions × (a.name ≡ name)
unfolding find_action
find_action-Elem name [] a e = absurd cc
find_action-Elem name (b ∷ actions) a e = elim (Bool-cases (beq b.name name)) [
  | inl y ↦
      (let same : some b ≡ some a = rw y at e in
        (inl (ground arith), rw (sym (some-inj b a same)) ((beq_iff b.name name).0 y)))
  | inr n ↦ (let rest = find_action-Elem name actions a (rw n at e) in (inr rest.0, rest.1))
]

-- An action that is to be run has passed all checks.
abbrev Passes : System → Config → InterventionCmd → InterventionAction → Type 0
Passes sys cfg icmd action =
    Elem action cfg.actions
    × (action.name ≡ icmd.name)
    × (sys.regex_match action.regex icmd.argument ≡ some true)
    × (contains icmd.argument action.whitelist ≡ false)

check_argument-run :
    (action a : InterventionAction) (argument : Bytes) (o : Option Bool)
    → check_argument action argument o ≡ run a
    → (a ≡ action) × (o ≡ some true) × (contains argument action.whitelist ≡ false)
unfolding check_argument
check_argument-run action a argument none e = absurd cc
check_argument-run action a argument (some false) e = absurd cc
check_argument-run action a argument (some true) e =
    elim (Bool-cases (contains argument action.whitelist)) [
      | inl y ↦ absurd (let wrong : whitelisted ≡ run a = rw y at e in cc)
      | inr n ↦ (let same : run action ≡ run a = rw n at e in (ground arith, refl, n))
    ]

module _ (sys : System) (cfg : Config) where
  pub decide-run :
      (icmd : InterventionCmd) (a : InterventionAction)
      → decide sys.regex_match cfg icmd ≡ run a
      → Passes sys cfg icmd a
  unfolding decide check_action
  decide-run icmd a e = elim (Option-cases (find_action icmd.name cfg.actions)) [
    | inl n ↦ absurd (let wrong : no_action ≡ run a = rw n at e in cc)
    | inr (action, f) ↦
        let h : check_action sys.regex_match icmd.argument (some action) ≡ run a = rw f at e in
        let (same, matches, free) = check_argument-run action a icmd.argument _ h in
        let (m, n) = find_action-Elem icmd.name cfg.actions action f in
        rw same (m, n, matches, free)
  ]

  launch-Permitted :
      (icmd : InterventionCmd) (action : InterventionAction) (l : Launch)
      → Passes sys cfg icmd action
      → Permitted sys cfg (launch sys icmd action l)
  unfolding launch
  launch-Permitted icmd action no_pipes p = tt
  launch-Permitted icmd action no_child p = tt
  launch-Permitted icmd action (started waitpid out err) p = (
    p.0,
    p.1,
    p.2,
    p.3,
    λ cmd arg k. run_cmd-privileges sys.host cmd arg sys.unit_test action icmd.argument k,
  )

  act_on-Permitted :
      (icmd : InterventionCmd) (l : Launch) (d : Decision)
      → ((action : InterventionAction) → d ≡ run action → Passes sys cfg icmd action)
      → Permitted sys cfg (act_on sys icmd l d)
  unfolding act_on
  act_on-Permitted icmd l (run action) p = launch-Permitted icmd action l (p action refl)
  act_on-Permitted icmd l _ p = tt

  process-Permitted :
      (icmd : InterventionCmd) (l : Launch) → Permitted sys cfg (process sys cfg icmd l)
  unfolding process
  process-Permitted icmd l =
      act_on-Permitted icmd l (decide sys.regex_match cfg icmd)
        (λ action e. decide-run icmd action e)

  -- Whatever the commands are and whatever the system does, each report is permitted: a child is made
  -- only for an action of the configuration with the command's name, whose expression matches the
  -- argument and whose whitelist does not hold it; if the child gets to a command, it is the
  -- action's with that argument, and if a group or a user is configured, it was found, and the call
  -- that sets it was made, with success, before the command was executed.
  pub processing_task-Permitted :
      (jobs : List ((InterventionCmd × Bool) × Launch))
      → All (Permitted sys cfg) (processing_task sys cfg jobs)
  unfolding processing_task
  processing_task-Permitted [] = tt
  processing_task-Permitted (((icmd, true), l) ∷ rest) = tt
  processing_task-Permitted (((icmd, false), l) ∷ rest) = (
    process-Permitted icmd l,
    if-both (All (Permitted sys cfg)) (goes_on (process sys cfg icmd l)) _ _
        (processing_task-Permitted rest) tt,
  )
