-- ===== src/Research/Process/Select.antt =====
-- Which of the matching rules `check_top_rules` goes on with.
use ctguard.Base.{
  ℕ, ◌<◌, ◌≤◌, ◌≡◌, refl, ◌⊎◌, inl, inr, ◌↔◌, List, [], ◌∷◌, Option, none, some, arith, All, Elem,
  All-at, Bool-cases, Option-cases, true, false,
}
use ctguard.Research.Process.{Candidate, better, pick, best, max_rule_id}

-- `c` goes before no later than `fit`.
abbrev pub Yields : ℕ → ℕ → Candidate → Type 0
Yields priority id c =
    (c.info.priority < priority) ⊎ ((c.info.priority ≡ priority) × (id ≤ c.info.id))

-- What the loop knows of its three variables.
abbrev Tracks : ℕ → ℕ → Option Candidate → Type 0
Tracks p i none = (p ≡ 0) × (i ≡ max_rule_id)
Tracks p i (some fit) = (p ≡ fit.info.priority) × (i ≡ fit.info.id)

abbrev Chosen : ℕ → ℕ → Option Candidate → List Candidate → Option Candidate → Type 0
Chosen p i start cs none = (start ≡ none) × All (Yields p i) cs
Chosen p i start cs (some fit) =
    ((start ≡ some fit)
      ⊎ (Elem fit cs × ((p < fit.info.priority) ⊎ ((p ≡ fit.info.priority) × (fit.info.id < i)))))
    × ((p < fit.info.priority) ⊎ ((p ≡ fit.info.priority) × (fit.info.id ≤ i)))
    × All (Yields fit.info.priority fit.info.id) cs

module _ (p i : ℕ) (start : Option Candidate) (c : Candidate) (cs : List Candidate) where
  Chosen-taken :
      (r : Option Candidate)
      → better p i c ≡ true
      → Chosen c.info.priority c.info.id (some c) cs r
      → Chosen p i start (c ∷ cs) r
  unfolding better
  Chosen-taken none b (e, h) = absurd (cc)
  Chosen-taken (some fit) b (from, beats, h) = (
    inr (
      elim from [ inl e ↦ inl (ground arith) | inr (m, lt) ↦ inr m ],
      elim from [ inl e ↦ ground arith | inr (m, lt) ↦ ground arith ],
    ),
    ground arith,
    (ground arith, h),
  )

  Chosen-left :
      (r : Option Candidate)
      → better p i c ≡ false
      → Chosen p i start cs r
      → Chosen p i start (c ∷ cs) r
  unfolding better
  Chosen-left none b (e, h) = (e, (ground arith, h))
  Chosen-left (some fit) b (from, beats, h) =
      (elim from [ inl e ↦ inl e | inr (m, lt) ↦ inr (inr m, lt) ], beats, (ground arith, h))

pick-Chosen :
    (cs : List Candidate) (p i : ℕ) (start : Option Candidate)
    → Tracks p i start
    → Chosen p i start cs (pick p i start cs)
unfolding pick
pick-Chosen [] p i none t = (refl, tt)
pick-Chosen [] p i (some fit) t = (inl refl, omega arith, tt)
pick-Chosen (c ∷ cs) p i start t = elim (Bool-cases (better p i c)) [
  | inl b ↦ rw b (
      Chosen-taken p i start c cs _ b
        (pick-Chosen cs c.info.priority c.info.id (some c) (refl, refl)))
  | inr b ↦ rw b (Chosen-left p i start c cs _ b (pick-Chosen cs p i start t))
]

-- The chosen rule is one of the matching ones, and none of these has a higher priority, nor the
-- same priority and a lower id.
pub best-IsBest :
    (cs : List Candidate) (fit : Candidate)
    → best cs ≡ some fit
    → Elem fit cs × All (Yields fit.info.priority fit.info.id) cs
unfolding best
best-IsBest cs fit e =
    let (from, beats, h) = rw e at (pick-Chosen cs 0 max_rule_id none (refl, refl)) in
    (elim from [ inl x ↦ absurd (cc) | inr (m, lt) ↦ m ], h)

-- None of the rules is chosen exactly when every one has the priority 0 and the highest id or, with
-- the ids that do not fit into 32 bits, a higher one. The code throws then, unless there is no
-- matching rule at all.
pub best-none : (cs : List Candidate) → (best cs ≡ none) ↔ All (Yields 0 max_rule_id) cs
unfolding best
best-none cs = (
  (λ e. (rw e at (pick-Chosen cs 0 max_rule_id none (refl, refl))).1),
  λ h. elim (Option-cases (best cs)) [
    | inl e ↦ e
    | inr (fit, e) ↦
        let (from, beats, _) = rw e at (pick-Chosen cs 0 max_rule_id none (refl, refl)) in
        elim from [
          | inl x ↦ absurd (cc)
          | inr (m, lt) ↦ absurd (omega (arith, All-at (Yields 0 max_rule_id) fit cs h m))
        ]
  ],
)
