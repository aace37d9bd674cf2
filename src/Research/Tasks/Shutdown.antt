-- ===== src/Research/Tasks/Shutdown.antt =====
-- How the threads end, one behind the other.
use ctguard.Base.{
  Bool, true, false, List, [], ◌∷◌, ◌++◌, Option, none, some, ◌≡◌, refl, ap, Bool-cases, inl, inr,
  All, All-append, Bytes, beq, ok, Post, Post-bind, Post-of, Post-eq-ok, Whatever,
}
use ctguard.Research.Types.{SourceEvent, Event, RuleCfg}
use ctguard.Research.Env.{Env, World}
use ctguard.Research.Config.{Config}
use ctguard.Research.Event.{event_of}
use ctguard.Research.Process.{process_log}
use ctguard.Research.Process.Origin.{process_log-IsLine}
use ctguard.Research.Tasks.Processing.{
  Pipes, Intervention, is_kill, is_worthy, shut_down, processing_task,
}
use ctguard.Research.Tasks.Processing.Forward.{
  process_all, worthy, all_orders, sent_on, processing_task-then,
}
use ctguard.Research.Tasks.Output.{ends_output, output_task, output_ends}
use ctguard.Research.Tasks.Input.{
  Reception, failed, received, ends_burst, admit, handle, receive, kill_message, input_task,
}

abbrev pub NoKill : List SourceEvent → Type 0
NoKill = All (λ se. is_kill se ≡ false)

admit-NoKill : (o : Option SourceEvent) → NoKill (admit o)
unfolding admit
admit-NoKill none = tt
admit-NoKill (some se) = elim (Bool-cases (is_kill se)) [ inl k ↦ rw k tt | inr k ↦ rw k (k, tt) ]

handle-NoKill : (decode : Bytes → Option SourceEvent) (r : Reception) → NoKill (handle decode r)
unfolding handle
handle-NoKill decode failed = tt
handle-NoKill decode (received bytes) = admit-NoKill (decode bytes)

-- No message from outside is queued as the kill message, whatever the datagrams hold.
pub receive-NoKill :
    (decode : Bytes → Option SourceEvent) (rs : List (Reception × Bool))
    → NoKill (receive decode rs).0
unfolding receive
receive-NoKill decode [] = tt
receive-NoKill decode ((r, running) ∷ rs) =
    let here = handle-NoKill decode r in
    let both = All-append (λ se. is_kill se ≡ false) _ _ here (receive-NoKill decode rs) in
    elim (Bool-cases (ends_burst r)) [
      | inr e ↦ rw e both
      | inl e ↦ rw e (elim (Bool-cases running) [ inl x ↦ rw x both | inr x ↦ rw x here ])
    ]

abbrev NoEnd : List Event → Type 0
NoEnd = All (λ e. ends_output e ≡ false)

no_end :
    (env : Env) (rules : RuleCfg) (se : SourceEvent) (w : World) (a : Event × World)
    → is_kill se ≡ false
    → process_log env rules se w ≡ ok a
    → ends_output a.0 ≡ false
unfolding is_kill ends_output
no_end env rules se w a k e =
    let from = process_log-IsLine env rules se w e in rw (from.0, from.1) k

all_NoEnd :
    (env : Env) (rules : RuleCfg) (ses : List SourceEvent) (w : World)
    → NoKill ses
    → Post Whatever (λ a. NoEnd a.0) (process_all env rules ses w)
unfolding process_all
all_NoEnd env rules [] w k = tt
all_NoEnd env rules (se ∷ ses) w k =
    Post-bind Whatever (λ a. ends_output a.0 ≡ false) _ (process_log env rules se w) _
      (Post-of _ (process_log env rules se w) λ a e. no_end env rules se w a k.0 e)
      λ a h.
        Post-bind Whatever (λ b. NoEnd b.0) _ (process_all env rules ses a.1) _
          (all_NoEnd env rules ses a.1 k.1) λ b t. (h, t)

worthy-NoEnd :
    (cfg : Config) (es : List Event)
    → All (λ e. ends_output e ≡ false) es
    → All (λ e. ends_output e ≡ false) (worthy cfg es)
worthy-NoEnd cfg [] h = tt
worthy-NoEnd cfg (e ∷ es) h = elim (Bool-cases (is_worthy cfg e)) [
  | inl y ↦ rw y (h.0, worthy-NoEnd cfg es h.1)
  | inr n ↦ rw n (worthy-NoEnd cfg es h.1)
]

output_task-until :
    (cfg : Config) (es more : List Event) (e : Event)
    → All (λ x. ends_output x ≡ false) es
    → ends_output e ≡ true
    → ((output_task cfg (es ++ e ∷ more)).0 ≡ es) × (output_ends (es ++ e ∷ more) ≡ true)
unfolding output_task output_ends
output_task-until cfg [] more e h k = rw k (refl, refl)
output_task-until cfg (x ∷ es) more e h k =
    let (same, ends) = output_task-until cfg es more e h.1 k in rw h.0 (ap (◌∷◌ x) same, ends)

-- `intervention_queue.emplace("", "", true);`
abbrev pub kill_order : Intervention
kill_order = record { name = []; argument = []; kill = true }

-- A whole run, from the socket to the alert file: once `input_task` has ended, and if every line
-- that it queued is processed without an error, `processing_task` has ended and `output_task` ends.
-- Then `output_task` has written exactly the events of sufficient priority or with `always_alert`, in
-- the order of their lines, and `intervention_task` is given exactly the interventions of these and
-- then its own kill order. No datagram can end the threads early. The alerts of `state_task` are left
-- out here.
pub shutdown_complete :
    (env : Env) (cfg : Config) (rules : RuleCfg) (decode : Bytes → Option SourceEvent)
    (rs : List (Reception × Bool)) (w : World) {es : List Event} {w' : World}
    → (receive decode rs).1 ≡ true
    → process_all env rules (receive decode rs).0 w ≡ ok (es, w')
    → (p : Pipes) × (processing_task env cfg rules
          (input_task decode rs)
          (record { world = w; alerts = []; interventions = []; ended = false })
        ≡ ok p)
      × (p.ended ≡ true)
      × (p.interventions ≡ all_orders (worthy cfg es) ++ (kill_order ∷ []))
      × ((output_task cfg p.alerts).0 ≡ worthy cfg es)
      × (output_ends p.alerts ≡ true)
unfolding input_task processing_task kill_message is_kill shut_down event_of ends_output beq
shutdown_complete env cfg rules decode rs w {es} {w'} stopped e =
    let k = receive-NoKill decode rs in
    let start : Pipes = record { world = w; alerts = []; interventions = []; ended = false } in
    let run =
      processing_task-then env cfg rules (receive decode rs).0 (kill_message ∷ []) start k e in
    let (written, ends) =
      output_task-until cfg (worthy cfg es) [] (event_of env kill_message)
        (worthy-NoEnd cfg es
          (Post-eq-ok (λ a. NoEnd a.0) _ (all_NoEnd env rules (receive decode rs).0 w k) e))
        refl in
    (
      shut_down env kill_message (sent_on cfg es w' start),
      rw stopped run,
      refl,
      refl,
      written,
      ends,
    )
