-- ===== src/Research/Tasks/Intervention/Kept.antt =====
-- Where interventions go before the thread ends.
use mathlib.Core.List.{Perm, perm_middle}
use mathlib.Core.List.Perm
use ctguard.Base.{
  ◌≡◌, sym, ap, ◌∙◌, List, [], ◌∷◌, ◌++◌, append-nil, append_assoc, none, some, if◌then◌else◌,
  Bool-cases, inl, inr,
}
use ctguard.Sink.{resend, resend-splits}
use ctguard.Research.Tasks.Intervention.{
  InterventionCmd, cmd_of, intervention_round, intervention_task, Round,
}

-- The commands that come in before the thread ends.
abbrev pub incoming : List Round → List InterventionCmd
incoming [] = []
incoming ((sink, none) ∷ rs) = incoming rs
incoming ((sink, some i) ∷ rs) = if i.kill then [] else cmd_of i ∷ incoming rs

abbrev perm_of_eq : {xs ys : List InterventionCmd} → xs ≡ ys → Perm xs ys
perm_of_eq {xs} {ys} e = rw e (Perm.refl ys)

-- What was sent and what still waits are, in some order, what waited before and what came in before
-- the kill order: the sink's failures lose no intervention and repeat none. What waits when the
-- thread ends is discarded.
pub intervention_task-perm :
    (rs : List Round) (q : List InterventionCmd)
    → Perm ((intervention_task rs q).0 ++ (intervention_task rs q).1) (q ++ incoming rs)
unfolding intervention_task intervention_round
intervention_task-perm [] q = perm_of_eq (sym (append-nil q))
intervention_task-perm ((sink, none) ∷ rs) q =
    let (sent, left) = resend sink 0 q in
    Perm.trans
      (perm_of_eq (append_assoc sent (intervention_task rs left).0 (intervention_task rs left).1))
      (Perm.trans (Perm.append (Perm.refl sent) (intervention_task-perm rs left)) (
        perm_of_eq (
          sym (append_assoc sent left (incoming rs))
          ∙ ap (λ x. x ++ incoming rs) (resend-splits sink 0 q))))
intervention_task-perm ((sink, some i) ∷ rs) q = elim (Bool-cases i.kill) [
  | inl k ↦ rw k (perm_of_eq (resend-splits sink 0 q ∙ sym (append-nil q)))
  | inr k ↦ rw k (elim (Bool-cases (sink 0)) [
    | inl y ↦ rw y (
        Perm.trans (Perm.cons (cmd_of i) (intervention_task-perm rs q))
          (Perm.symm (perm_middle q (incoming rs))))
    | inr x ↦ rw x (
        Perm.trans (intervention_task-perm rs (q ++ (cmd_of i ∷ [])))
          (perm_of_eq (append_assoc q (cmd_of i ∷ []) (incoming rs))))
  ])
]
