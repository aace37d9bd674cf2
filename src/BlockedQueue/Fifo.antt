-- ===== src/BlockedQueue/Fifo.antt =====
-- The order of the elements, and the calls that sleep, under any interleaving.
use ctguard.Base.{
  ℕ, zero, suc, ◌+◌, List, [], ◌∷◌, ◌++◌, append-nil, append_assoc, ◌≡◌, refl, sym, ap, ◌∙◌, arith,
}
use ctguard.BlockedQueue.{
  BlockedQueue, Action, push, pop, call_take, wake_take, call_take_for, wake_take_for, Effect,
  timed_out, returned, dropped, do_pop, do_call_take, do_wake_take, do_wake_take_for, act, run,
}

module _ {ℓ} {A : Type ℓ} where
  abbrev pub pushed_by : Action A → List A
  pushed_by (push x) = x ∷ []
  pushed_by _ = []

  abbrev pub pushed : List (Action A) → List A
  pushed [] = []
  pushed (a ∷ acts) = pushed_by a ++ pushed acts

  -- The elements that left the queue.
  abbrev pub left_by : Effect A → List A
  left_by (returned x) = x ∷ []
  left_by (dropped x) = x ∷ []
  left_by _ = []

  abbrev pub gone : List (Effect A) → List A
  gone [] = []
  gone (o ∷ os) = left_by o ++ gone os

  do_wake_take-items :
      (xs : List A) (n : ℕ) → left_by (do_wake_take xs n).2 ++ (do_wake_take xs n).0 ≡ xs
  unfolding do_wake_take
  do_wake_take-items [] zero = refl
  do_wake_take-items (x ∷ xs) zero = refl
  do_wake_take-items [] (suc n) = refl
  do_wake_take-items (x ∷ xs) (suc n) = refl

  do_wake_take_for-items :
      (xs : List A) (n : ℕ) → left_by (do_wake_take_for xs n).2 ++ (do_wake_take_for xs n).0 ≡ xs
  unfolding do_wake_take_for
  do_wake_take_for-items [] zero = refl
  do_wake_take_for-items (x ∷ xs) zero = refl
  do_wake_take_for-items [] (suc n) = refl
  do_wake_take_for-items (x ∷ xs) (suc n) = refl

  do_call_take-items :
      (xs : List A) (n : ℕ) → left_by (do_call_take xs n).2 ++ (do_call_take xs n).0 ≡ xs
  unfolding do_call_take
  do_call_take-items [] n = refl
  do_call_take-items (x ∷ xs) n = refl

  do_pop-items : (xs : List A) → left_by (do_pop xs).1 ++ (do_pop xs).0 ≡ xs
  unfolding do_pop
  do_pop-items [] = refl
  do_pop-items (x ∷ xs) = refl

  act-items :
      (a : Action A) (b : BlockedQueue A)
      → left_by (act a b).1 ++ (act a b).0.items ≡ b.items ++ pushed_by a
  unfolding act
  act-items (push x) b = refl
  act-items pop b = do_pop-items b.items ∙ sym (append-nil b.items)
  act-items call_take b = do_call_take-items b.items b.takers ∙ sym (append-nil b.items)
  act-items wake_take b = do_wake_take-items b.items b.takers ∙ sym (append-nil b.items)
  act-items call_take_for b = do_call_take-items b.items b.timed_takers ∙ sym (append-nil b.items)
  act-items wake_take_for b =
      do_wake_take_for-items b.items b.timed_takers ∙ sym (append-nil b.items)

  -- Whatever the threads do, in whatever order, the elements leave the queue in the order in which
  -- they came: those that left and then those still queued are those queued at the start and then
  -- those pushed.
  pub run-fifo :
      (acts : List (Action A)) (b : BlockedQueue A)
      → gone (run acts b).1 ++ (run acts b).0.items ≡ b.items ++ pushed acts
  unfolding run
  run-fifo [] b = sym (append-nil b.items)
  run-fifo (a ∷ acts) b =
      let b1 = (act a b).0 in
      let out = left_by (act a b).1 in
      append_assoc out (gone (run acts b1).1) (run acts b1).0.items
      ∙ ap (◌++◌ out) (run-fifo acts b1)
      ∙ sym (append_assoc out b1.items (pushed acts))
      ∙ ap (λ xs. xs ++ pushed acts) (act-items a b)
      ∙ append_assoc b.items (pushed_by a) (pushed acts)

  -- How many of the calls of `take` without a time came, and how many of all calls returned.
  abbrev pub calls : List (Action A) → ℕ
  calls [] = 0
  calls (call_take ∷ acts) = suc (calls acts)
  calls (call_take_for ∷ acts) = suc (calls acts)
  calls (_ ∷ acts) = calls acts

  abbrev pub returns : List (Effect A) → ℕ
  returns [] = 0
  returns (returned x ∷ os) = suc (returns os)
  returns (timed_out ∷ os) = suc (returns os)
  returns (_ ∷ os) = returns os

  abbrev pub asleep : BlockedQueue A → ℕ
  asleep b = b.takers + b.timed_takers

  act-calls :
      (a : Action A) (b : BlockedQueue A)
      → returns ((act a b).1 ∷ []) + asleep (act a b).0 ≡ calls (a ∷ []) + asleep b
  unfolding act do_pop do_call_take do_wake_take do_wake_take_for
  act-calls (push x) b = refl
  act-calls pop b = ground arith
  act-calls call_take b = ground arith
  act-calls wake_take b = ground arith
  act-calls call_take_for b = ground arith
  act-calls wake_take_for b = ground arith

  calls-cons :
      (a : Action A) (acts : List (Action A)) → calls (a ∷ acts) ≡ calls (a ∷ []) + calls acts
  calls-cons a acts = ground arith

  returns-cons :
      (o : Effect A) (os : List (Effect A)) → returns (o ∷ os) ≡ returns (o ∷ []) + returns os
  returns-cons o os = ground arith

  -- Every call of `take` returns once or still sleeps.
  pub run-calls :
      (acts : List (Action A)) (b : BlockedQueue A)
      → returns (run acts b).1 + asleep (run acts b).0 ≡ calls acts + asleep b
  unfolding run
  run-calls [] b = refl
  run-calls (a ∷ acts) b = omega (
    arith,
    act-calls a b,
    run-calls acts (act a b).0,
    calls-cons a acts,
    returns-cons (act a b).1 (run acts (act a b).0).1,
  )
