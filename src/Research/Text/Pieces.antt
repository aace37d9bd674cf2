-- ===== src/Research/Text/Pieces.antt =====
-- The pieces that a value is cut into, and what `trim` leaves of a blank one.
use ctguard.Base.{
  ℕ, ◌≡◌, refl, sym, ap, ◌∙◌, Bool-cases, inl, inr, true, false, List, [], ◌∷◌, ◌++◌, some, Bytes,
  isspace, ◌==◌, ==_iff, All,
}
use ctguard.Research.Text.{trim_front, trim, split}

-- The pieces with the delimiter between them.
abbrev pub joined : ℕ → List Bytes → Bytes
joined c [] = []
joined c (p ∷ []) = p
joined c (p ∷ q ∷ ps) = p ++ (c ∷ joined c (q ∷ ps))

abbrev pub Lacks : ℕ → Bytes → Type 0
Lacks c = All (λ x. (x == c) ≡ false)

split_parts : (c : ℕ) (xs : Bytes) → (p : Bytes) × (ps : List Bytes) × (split c xs ≡ p ∷ ps)
unfolding split
split_parts c [] = ([], [], refl)
split_parts c (x ∷ xs) =
    let (p, ps, e) = split_parts c xs in
    elim (Bool-cases (x == c)) [
      | inl y ↦ ([], p ∷ ps, rw (y, e) refl)
      | inr n ↦ (x ∷ p, ps, rw (n, e) refl)
    ]

joined-grown :
    (c x : ℕ) (p : Bytes) (ps : List Bytes) → joined c ((x ∷ p) ∷ ps) ≡ x ∷ joined c (p ∷ ps)
joined-grown c x p [] = refl
joined-grown c x p (q ∷ ps) = refl

-- Cutting a text at a delimiter loses nothing, and no piece holds the delimiter.
pub split-joined : (c : ℕ) (xs : Bytes) → (joined c (split c xs) ≡ xs) × All (Lacks c) (split c xs)
unfolding split
split-joined c [] = (refl, (tt, tt))
split-joined c (x ∷ xs) =
    let (p, ps, e) = split_parts c xs in
    let (whole, lacks) = split-joined c xs in
    let whole' : joined c (p ∷ ps) ≡ xs = ap (joined c) (sym e) ∙ whole in
    let lacks' : All (Lacks c) (p ∷ ps) = rw e at lacks in
    elim (Bool-cases (x == c)) [
      | inl y ↦
          let same : c ≡ x = sym ((==_iff x c).0 y) in
          rw (y, e) (ap (◌∷◌ c) whole' ∙ ap (λ d. d ∷ xs) same, (tt, lacks'))
      | inr n ↦ rw (n, e) (joined-grown c x p ps ∙ ap (◌∷◌ x) whole', ((n, lacks'.0), lacks'.1))
    ]

abbrev pub IsBlank : Bytes → Type 0
IsBlank = All (λ x. isspace x ≡ true)

trim_front-blank :
    (x : ℕ) (xs : Bytes)
    → IsBlank (x ∷ xs)
    → (y : ℕ) × (isspace y ≡ true) × (trim_front (x ∷ xs) ≡ y ∷ [])
unfolding trim_front
trim_front-blank x [] h = (x, h.0, refl)
trim_front-blank x (z ∷ xs) h = let (y, s, e) = trim_front-blank z xs h.1 in (y, s, rw h.0 e)

-- Of a text of white space alone `trim` leaves one white space: the result is not empty.
pub trim-IsBlank :
    (x : ℕ) (xs : Bytes)
    → IsBlank (x ∷ xs)
    → (y : ℕ) × (isspace y ≡ true) × (trim (x ∷ xs) ≡ some (y ∷ []))
unfolding trim trim_front
trim-IsBlank x xs h = let (y, s, e) = trim_front-blank x xs h in (y, s, rw e refl)
