-- ===== src/Research/Tasks/Processing/Forward.antt =====
-- What `processing_task` sends on.
use ctguard.Base.{
  ◌≡◌, ap, ◌∙◌, true, false, List, [], ◌∷◌, ◌++◌, append-nil, append_assoc, All, ok, ◌>>=◌,
  >>=-eq-ok, if◌then◌else◌, Bool-cases, inl, inr, arith,
}
use ctguard.Research.Types.{SourceEvent, Event, RuleCfg}
use ctguard.Research.Env.{Env, World, Result}
use ctguard.Research.Config.{Config}
use ctguard.Research.Process.{process_log}
use ctguard.Research.Tasks.Processing.{
  Intervention, Pipes, is_kill, is_worthy, orders, forward, shut_down, processing_task,
}

-- The events that the log lines become, one after the other.
unfoldable pub process_all : Env → RuleCfg → List SourceEvent → World → Result (List Event × World)
process_all env rules [] w = ok ([], w)
process_all env rules (se ∷ ses) w = do
  (e, w1) ← process_log env rules se w
  (es, w2) ← process_all env rules ses w1
  ok (e ∷ es, w2)

abbrev pub worthy : Config → List Event → List Event
worthy cfg [] = []
worthy cfg (e ∷ es) = if is_worthy cfg e then e ∷ worthy cfg es else worthy cfg es

abbrev pub all_orders : List Event → List Intervention
all_orders [] = []
all_orders (e ∷ es) = orders e.fields e.interventions ++ all_orders es

-- The queues after the events have gone through.
abbrev pub sent_on : Config → List Event → World → Pipes → Pipes
sent_on cfg es w p = record {
  world = w;
  alerts = p.alerts ++ worthy cfg es;
  interventions = p.interventions ++ all_orders (worthy cfg es);
  ended = p.ended;
}

forward-sent_on :
    (cfg : Config) (e : Event) (es : List Event) (w w' : World) (p : Pipes)
    → sent_on cfg es w' (forward cfg e (record p { world = w })) ≡ sent_on cfg (e ∷ es) w' p
unfolding forward
forward-sent_on cfg e es w w' p = elim (Bool-cases (is_worthy cfg e)) [
  | inl y ↦ rw y (simp append_assoc)
  | inr n ↦ rw n
]

forward-world : (cfg : Config) (e : Event) (p : Pipes) → (forward cfg e p).world ≡ p.world
unfolding forward
forward-world cfg e p = ground arith

-- Behind lines that are all processed, the thread goes on with the queues that these leave.
pub processing_task-then :
    (env : Env) (cfg : Config) (rules : RuleCfg) (ses more : List SourceEvent) (p : Pipes)
    {es : List Event} {w : World}
    → All (λ se. is_kill se ≡ false) ses
    → process_all env rules ses p.world ≡ ok (es, w)
    → processing_task env cfg rules (ses ++ more) p
      ≡ processing_task env cfg rules more (sent_on cfg es w p)
unfolding process_all processing_task
processing_task-then env cfg rules [] more p {es} {w} k e =
    let started : processing_task env cfg rules more p
        ≡ processing_task env cfg rules more (sent_on cfg [] p.world p) =
      rw (append-nil p.alerts, append-nil p.interventions) in
    started ∙ cc (e)
processing_task-then env cfg rules (se ∷ ses) more p {es} {w} k e =
    let (a, pe, e1) = >>=-eq-ok (process_log env rules se p.world) _ e in
    let (b, qe, e2) = >>=-eq-ok (process_all env rules ses a.1) _ e1 in
    let q = forward cfg a.0 (record p { world = a.1 }) in
    let ih =
      processing_task-then env cfg rules ses more q {es = b.0} {w = b.1} k.1
        (rw (forward-world cfg a.0 (record p { world = a.1 })) qe) in
    rw (k.0, pe)
      (ih
        ∙ ap (processing_task env cfg rules more) (forward-sent_on cfg a.0 b.0 a.1 b.1 p)
        ∙ cc (e2))

-- A kill message ends the thread: both queues are told, and no later line is processed.
pub processing_task-kill :
    (env : Env) (cfg : Config) (rules : RuleCfg) (se : SourceEvent) (ses : List SourceEvent)
    (p : Pipes)
    → is_kill se ≡ true
    → processing_task env cfg rules (se ∷ ses) p ≡ ok (shut_down env se p)
unfolding processing_task
processing_task-kill env cfg rules se ses p k = rw k
