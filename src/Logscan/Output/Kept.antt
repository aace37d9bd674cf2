-- ===== src/Logscan/Output/Kept.antt =====
-- Where messages go before the thread ends.
use mathlib.Core.List.{Perm, perm_middle}
use mathlib.Core.List.Perm
use ctguard.Base.{
  ◌≡◌, sym, ap, ◌∙◌, List, [], ◌∷◌, ◌++◌, append-nil, append_assoc, none, some, if◌then◌else◌,
  Bool-cases, inl, inr,
}
use ctguard.Research.Types.{SourceEvent}
use ctguard.Sink.{resend, resend-splits}
use ctguard.Logscan.Output.{ends_output, output_round, output_task, Round}

-- The messages that come in before the one that ends the thread.
abbrev pub incoming : List Round → List SourceEvent
incoming [] = []
incoming ((sink, none) ∷ rs) = incoming rs
incoming ((sink, some se) ∷ rs) = if ends_output se then [] else se ∷ incoming rs

abbrev same : {xs ys : List SourceEvent} → xs ≡ ys → Perm xs ys
same {xs} {ys} e = rw e (Perm.refl ys)

-- What was sent and what still waits are, in some order, what waited before and the messages that
-- came in before "!KILL": the sink's failures lose none and repeat none, and none that comes behind
-- "!KILL" is sent. What waits when the thread ends is discarded.
pub output_task-perm :
    (rs : List Round) (q : List SourceEvent)
    → Perm ((output_task rs q).0 ++ (output_task rs q).1) (q ++ incoming rs)
unfolding output_task output_round
output_task-perm [] q = same (sym (append-nil q))
output_task-perm ((sink, none) ∷ rs) q =
    let (sent, left) = resend sink 0 q in
    let (more, rest) = output_task rs left in
    Perm.trans (same (append_assoc sent more rest)) (
      Perm.trans (Perm.append (Perm.refl sent) (output_task-perm rs left)) (
        same (
          sym (append_assoc sent left (incoming rs))
          ∙ ap (λ x. x ++ incoming rs) (resend-splits sink 0 q))))
output_task-perm ((sink, some se) ∷ rs) q = elim (Bool-cases (ends_output se)) [
  | inl k ↦ rw k (same (resend-splits sink 0 q ∙ sym (append-nil q)))
  | inr k ↦ rw k (elim (Bool-cases (sink 0)) [
    | inl y ↦ rw y (
        Perm.trans (Perm.cons se (output_task-perm rs q)) (Perm.symm (perm_middle q (incoming rs))))
    | inr x ↦ rw x (
        Perm.trans (output_task-perm rs (q ++ (se ∷ [])))
          (same (append_assoc q (se ∷ []) (incoming rs))))
  ])
]
