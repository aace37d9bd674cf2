-- ===== src/Intervention/Child/Waiting.antt =====
-- The end of the waiting for a child.
use ctguard.Base.{
  ℕ, zero, suc, ◌+◌, ◌≤◌, ◌<◌, ◌≡◌, refl, true, Option, some, leb, leb→le, ◌==◌, ==_iff, arith,
  Bool-cases, inl, inr,
}
use ctguard.Intervention.Child.{
  WaitResult, running, Ending, timed_out, ending_of, is_running, wait_child,
}

-- The waiting ended at call k of waitpid: all calls before found the child running, and this one
-- did not, or it was the last one that the timeout allows.
abbrev pub EndsAt : (ℕ → WaitResult) → ℕ → ℕ → ℕ → Option (Ending × ℕ) → Type 0
EndsAt waitpid command_timeout from k r =
    (r ≡ some (ending_of (waitpid k), k))
    × (from ≤ k)
    × (k ≤ command_timeout)
    × ((j : ℕ) → from ≤ j → j < k → is_running (waitpid j) ≡ true)
    × (is_running (waitpid k) ≡ true → k ≡ command_timeout)

running-timed_out : (w : WaitResult) → is_running w ≡ true → ending_of w ≡ timed_out
unfolding is_running ending_of
running-timed_out running h = refl
running-timed_out _ h = absurd cc

module _ (waitpid : ℕ → WaitResult) (command_timeout : ℕ) where
  earlier_too :
      (timeout k : ℕ)
      → is_running (waitpid timeout) ≡ true
      → ((j : ℕ) → suc timeout ≤ j → j < k → is_running (waitpid j) ≡ true)
      → (j : ℕ) → timeout ≤ j
      → j < k
      → is_running (waitpid j) ≡ true
  earlier_too timeout k e run j l m = elim (Bool-cases (j == timeout)) [
    | inl y ↦ rw ((==_iff j timeout).0 y) e
    | inr n ↦ run j (ground arith) m
  ]

  wait_child-EndsAt :
      (fuel timeout : ℕ)
      → timeout ≤ command_timeout
      → command_timeout < timeout + fuel
      → (k : ℕ) × EndsAt waitpid command_timeout timeout k
          (wait_child fuel waitpid command_timeout timeout)
  unfolding wait_child
  wait_child-EndsAt zero timeout h f = absurd (omega (arith, h, f))
  wait_child-EndsAt (suc fuel) timeout h f = elim (Bool-cases (is_running (waitpid timeout))) [
    | inr e ↦ (timeout, (rw e refl, omega arith, h, λ j l m. absurd (omega arith), λ r. absurd cc))
    | inl e ↦ elim (Bool-cases (leb command_timeout timeout)) [
      | inl y ↦ (
        timeout,
        (
          rw (e, y, running-timed_out (waitpid timeout) e) refl,
          omega arith,
          h,
          λ j l m. absurd (omega arith),
          λ r. omega (arith, leb→le command_timeout timeout y),
        ),
      )
      | inr n ↦
          let (k, found) = wait_child-EndsAt fuel (suc timeout) (ground arith) (omega arith) in
          (
            k,
            (
              rw (e, n) found.0,
              omega (arith, found.1),
              found.2,
              earlier_too timeout k e found.3,
              found.4,
            ),
          )
    ]
  ]

  -- The waiting ends within the timeout, with what waitpid says first that is not running, or after
  -- as many seconds as the timeout allows, with the child killed.
  pub wait_child-ends :
      (k : ℕ) × EndsAt waitpid command_timeout 0 k
        (wait_child (suc command_timeout) waitpid command_timeout 0)
  wait_child-ends = wait_child-EndsAt (suc command_timeout) 0 (omega arith) (omega arith)
