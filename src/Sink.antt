-- ===== src/Sink.antt =====
-- The loop in `output_task` and `intervention_task` of the daemons that sends what waits.
use ctguard.Base.{
  ℕ, suc, ◌≡◌, refl, ap, Bool, List, [], ◌∷◌, ◌++◌, if◌then◌else◌, Bool-cases, inl, inr,
}

-- What waits is sent until the sink fails; `sink n` says whether its n-th
-- call in this round gets through. The result is what was sent, and what still waits.
unfoldable pub resend {ℓ} : {A : Type ℓ} → (ℕ → Bool) → ℕ → List A → List A × List A
resend sink n [] = ([], [])
resend sink n (c ∷ q) =
    let (sent, left) = resend sink (suc n) q in if sink n then (c ∷ sent, left) else ([], c ∷ q)

-- Nothing is lost or reordered.
pub resend-splits {ℓ} :
    {A : Type ℓ} (sink : ℕ → Bool) (n : ℕ) (q : List A)
    → (resend sink n q).0 ++ (resend sink n q).1 ≡ q
unfolding resend
resend-splits sink n [] = refl
resend-splits sink n (c ∷ q) = elim (Bool-cases (sink n)) [
  | inl y ↦ rw y (ap (◌∷◌ c) (resend-splits sink (suc n) q))
  | inr x ↦ rw x
]
