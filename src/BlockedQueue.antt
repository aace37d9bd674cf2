-- ===== src/BlockedQueue.antt =====
pub mod Fifo
-- src/libs/blockedqueue.hpp: the queue between two threads. Each operation runs under the mutex,
-- so a run is a sequence of them; a call that finds the queue empty sleeps, and goes on at a later
-- step, after which the condition is tested again.
use ctguard.Base.{
  ℕ, zero, suc, ◌+◌, List, [], ◌∷◌, ◌++◌, Option, none, some, Bool, is_empty, length,
}

-- `m_queue`, and the calls that sleep in `take()` and in `take(duration)`.
pub record BlockedQueue {ℓ} (A : Type ℓ) : Type ℓ where
  pub items : List A
  pub takers : ℕ
  pub timed_takers : ℕ

-- What a thread does next. `push` is also `emplace`; a `wake` is the end of a sleep, by
-- `notify_all`, by the end of the time, or for no reason.
pub data Action {ℓ} (A : Type ℓ) : Type ℓ where
  push : A → Action A
  pop call_take wake_take call_take_for wake_take_for : Action A

-- What comes out: nothing yet, an element that is returned or dropped, or an empty `optional`.
pub data Effect {ℓ} (A : Type ℓ) : Type ℓ where
  silent timed_out : Effect A
  returned dropped : A → Effect A

module _ {ℓ} {A : Type ℓ} where
  abbrev pub fresh_queue : BlockedQueue A
  fresh_queue = record { items = []; takers = 0; timed_takers = 0 }

  unfoldable pub size : BlockedQueue A → ℕ
  size b = length b.items

  unfoldable pub empty : BlockedQueue A → Bool
  empty b = is_empty b.items

  -- The steps on the elements, by the elements and the number of calls of this kind that sleep.
  unfoldable pub do_pop : List A → List A × Effect A
  do_pop [] = ([], silent)
  do_pop (x ∷ xs) = (xs, dropped x)

  unfoldable pub do_call_take : List A → ℕ → List A × ℕ × Effect A
  do_call_take [] n = ([], suc n, silent)
  do_call_take (x ∷ xs) n = (xs, n, returned x)

  -- `while (m_queue.empty()) m_cv.wait(mg)`: with no element, the call sleeps again.
  unfoldable pub do_wake_take : List A → ℕ → List A × ℕ × Effect A
  do_wake_take xs zero = (xs, zero, silent)
  do_wake_take [] (suc n) = ([], suc n, silent)
  do_wake_take (x ∷ xs) (suc n) = (xs, n, returned x)

  -- `if (m_queue.empty()) m_cv.wait_for(mg, …)`: the call sleeps once at most.
  unfoldable pub do_wake_take_for : List A → ℕ → List A × ℕ × Effect A
  do_wake_take_for xs zero = (xs, zero, silent)
  do_wake_take_for [] (suc n) = ([], n, timed_out)
  do_wake_take_for (x ∷ xs) (suc n) = (xs, n, returned x)

  unfoldable pub act : Action A → BlockedQueue A → BlockedQueue A × Effect A
  unfolding do_pop do_call_take do_wake_take do_wake_take_for
  act (push x) b = (record b { items = b.items ++ (x ∷ []) }, silent)
  act pop b = let (xs, out) = do_pop b.items in (record b { items = xs }, out)
  act call_take b =
      let (xs, n, out) = do_call_take b.items b.takers in (record b { items = xs; takers = n }, out)
  act wake_take b =
      let (xs, n, out) = do_wake_take b.items b.takers in (record b { items = xs; takers = n }, out)
  act call_take_for b =
      let (xs, n, out) = do_call_take b.items b.timed_takers in
      (record b { items = xs; timed_takers = n }, out)
  act wake_take_for b =
      let (xs, n, out) = do_wake_take_for b.items b.timed_takers in
      (record b { items = xs; timed_takers = n }, out)

  -- A sequence of steps, and what came out at each.
  unfoldable pub run : List (Action A) → BlockedQueue A → BlockedQueue A × List (Effect A)
  unfolding act
  run [] b = (b, [])
  run (a ∷ acts) b = let (b1, out) = act a b in let (b2, outs) = run acts b1 in (b2, out ∷ outs)
