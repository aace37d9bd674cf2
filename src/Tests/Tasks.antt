-- ===== src/Tests/Tasks.antt =====
-- Runs of the threads and of the number parser, and their theorems applied.
use ctguard.Base.{
  ok, isspace, isdigit, ◌≡◌, ◌≢◌, refl, ◌++◌, codes, List, [], ◌∷◌, true, some, none, arith, beq,
  lookup, assign, contains, ℕ, nat_key, if◌then◌else◌, ◌%◌, ◌^◌, ltb, ◌+◌, Elem, ◌↔◌, Bool, ◌==◌,
  false,
}
use ctguard.Helper.{max_short, stoul, parse_integral}
use ctguard.Research.Env.{World, state_at}
use ctguard.Research.Types.{Event, RuleState, fresh_state, RuleInfo}
use ctguard.Research.Event.{update}
use ctguard.Research.Check.{check_unless}
use ctguard.Research.Tasks.Unless.{fire}
use ctguard.Research.Tasks.Unless.Once.{due_event, unless_protocol, unless_silent}
use mathlib.Core.List.{Perm}
use ctguard.Research.Tasks.Processing.{Intervention}
use ctguard.Research.Tasks.Intervention.{Round, intervention_task}
use ctguard.Research.Tasks.Intervention.Kept.{incoming, intervention_task-perm}
use ctguard.Research.Tasks.Mail.{
  Mailer, mail_round, is_mailed, Readings, Round as MailRound, fresh_mailer, mail_task, completed,
  refused, unanswered,
}
use ctguard.Research.Tasks.Mail.Batches.{urgent_sent, all_mailed, mail_task-keeps, mail_task-Same}
use ctguard.Research.Tasks.Mail.Batches.{highest}
use ctguard.Research.Tasks.Summary.{no_alerts, summarise}
use ctguard.Research.Tasks.Summary.Counts.{count_at, occurrences, summarise-count}
use ctguard.BlockedQueue.{
  Action, push, pop, call_take, wake_take, call_take_for, wake_take_for, fresh_queue, run,
}
use ctguard.BlockedQueue.Fifo.{pushed, gone, run-fifo}
use ctguard.Tests.Sample.{env, config, alert, rule_4}

-- An event of rule 1 comes, and later the clock is read.
abbrev pub watched : Event
watched = record (alert 1) { rule_id = 1 }

abbrev armed_state : RuleState
armed_state = record fresh_state {
  unless_triggered = 40;
  unless_timeout = 30;
  unless_event = update rule_4 watched;
}

abbrev at_40 : World
at_40 = record { states = []; ticks = 40 }

abbrev waiting : World
waiting = record { states = (4, armed_state) ∷ []; ticks = 41 }

arming : check_unless env rule_4 watched at_40 ≡ ok waiting
unfolding check_unless contains assign lookup beq update
arming = refl

unless_protocol_example :
    ((fire config (state_at 4 waiting) 71).1 ≡ (
      if contains watched.rule_id rule_4.parent_ids
      then due_event config rule_4 watched 40 71
      else []))
    × ((fire config (state_at 4 waiting) 71).0.unless_triggered ≡ (
        if contains watched.rule_id rule_4.parent_ids
        then (if ltb (40 + 30) 71 then 0 else 40)
        else 0))
    × ((j : ℕ) → 4 ≢ j → lookup j waiting.states ≡ lookup j at_40.states)
unless_protocol_example = unless_protocol env config rule_4 watched at_40 waiting 71 arming

abbrev faint : RuleInfo
faint = record rule_4 { priority = 2; always_alert = true }

abbrev faint_world : World
faint_world = record {
  states = (4, record armed_state { unless_event = update faint watched }) ∷ [];
  ticks = 41;
}

arming_faint : check_unless env faint watched at_40 ≡ ok faint_world
unfolding check_unless contains assign lookup beq update
arming_faint = refl

unless_silent_example : (fire config (state_at 4 faint_world) 71).1 ≡ []
unless_silent_example =
    unless_silent env config faint watched at_40 faint_world 71 arming_faint (omega arith) refl

abbrev at_time : ℕ → Readings
at_time t = record { at_event = t; at_interval = t; at_sample = t; at_count = t; at_send = t }

abbrev rounds : List MailRound
rounds =
    record { input = some (alert 5); time = at_time 3; delivery = completed }
    ∷ record { input = some (alert 9); time = at_time 4; delivery = refused }
    ∷ record { input = none; time = at_time 5; delivery = completed }
    ∷ []

mail_task-keeps_example :
    (mail_task config rounds fresh_mailer).1 ++ (mail_task config rounds fresh_mailer).0.local_queue
    ≡ [] ++ all_mailed config rounds
mail_task-keeps_example =
    mail_task-keeps config rounds fresh_mailer ((λ h. cc), ((λ h. cc), ((λ h. cc), tt)))

-- The server takes the second mail, and what follows is not answered: it is mailed again.
abbrev mailed_again : List MailRound
mailed_again =
    record { input = some (alert 9); time = at_time 4; delivery = unanswered }
    ∷ record { input = none; time = at_time 5; delivery = completed }
    ∷ []

mail_task-Same_example :
    Elem (alert 9) (
      (mail_task config mailed_again fresh_mailer).1
      ++ (mail_task config mailed_again fresh_mailer).0.local_queue)
    ↔ Elem (alert 9) ([] ++ all_mailed config mailed_again)
mail_task-Same_example = mail_task-Same config mailed_again fresh_mailer (alert 9)

read_80 : parse_integral max_short (codes "80") ≡ ok 80
unfolding parse_integral stoul isspace isdigit
read_80 = refl

abbrev mail : List Event
mail =
    record (alert 5) { description = codes "a" } ∷ record (alert 9) { description = codes "a" } ∷ []

summarise-count_example :
    (count_at (codes "a") (summarise mail no_alerts).summary_map
      ≡ occurrences (codes "a") mail % 2 ^ 32)
    × ((summarise mail no_alerts).max_alert ≡ highest mail)
summarise-count_example = summarise-count (codes "a") mail

-- Two threads: one sleeps in `take` before the first element comes, the other one gives up.
abbrev actions : List (Action ℕ)
actions =
    call_take
    ∷ call_take_for
    ∷ wake_take
    ∷ wake_take_for
    ∷ push 1
    ∷ push 2
    ∷ wake_take
    ∷ pop
    ∷ push 3
    ∷ []

run-fifo_example :
    gone (run actions fresh_queue).1 ++ (run actions fresh_queue).0.items ≡ [] ++ pushed actions
run-fifo_example = run-fifo actions fresh_queue

abbrev one_waits : Mailer
one_waits = record { local_queue = alert 5 ∷ []; max_priority = 5; last_send = 2; last_event = 3 }

abbrev urgent_round : MailRound
urgent_round = record { input = some (alert 9); time = at_time 4; delivery = completed }

urgent_sent_example :
    ((mail_round config urgent_round one_waits).1 ≡ alert 5 ∷ alert 9 ∷ [])
    × ((mail_round config urgent_round one_waits).0.local_queue ≡ [])
unfolding is_mailed
urgent_sent_example = urgent_sent config (at_time 4) (alert 9) one_waits refl (omega arith)

abbrev order : Bool → Intervention
order kill = record { name = codes "drop"; argument = codes "10.0.0.1"; kill = kill }

-- The sink fails, takes what comes next, takes what waited, and then the thread is ended.
abbrev steps : List Round
steps =
    ((λ n. false), some (order false))
    ∷ ((λ n. true), some (order false))
    ∷ ((λ n. n == 0), none)
    ∷ ((λ n. true), some (order true))
    ∷ []

intervention_task-perm_example :
    Perm ((intervention_task steps []).0 ++ (intervention_task steps []).1) ([] ++ incoming steps)
intervention_task-perm_example = intervention_task-perm steps []
