-- ===== src/Base/Lists.antt =====
-- Lists measured and indexed by native numbers, predicates on lists, and membership as a test.
use Prim.Native.Nat.{ℕ, zero, suc, ◌+◌}
use mathlib.Core.Path.{◌≡◌, refl}
use mathlib.Core.List.{List, [], ◌∷◌, ◌++◌}
use mathlib.Core.Option.{Option, none, some}
use mathlib.Core.Logic.{◌⊎◌, inl, inr}
use native.Mathlib.Omega.{arith}

module _ {ℓ} {A : Type ℓ} where
  abbrev pub length : List A → ℕ
  length [] = 0
  length (x ∷ xs) = suc (length xs)

  abbrev pub get_elem? : List A → ℕ → Option A
  get_elem? [] i = none
  get_elem? (x ∷ xs) zero = some x
  get_elem? (x ∷ xs) (suc i) = get_elem? xs i

  pub length-append : (xs ys : List A) → length (xs ++ ys) ≡ length xs + length ys
  length-append [] ys = omega arith
  length-append (x ∷ xs) ys = omega (arith, length-append xs ys)

-- Every element satisfies the predicate; some element does (with its place).
abbrev pub All {ℓ κ} : {A : Type ℓ} → (A → Type κ) → List A → Type κ
All P [] = Unit
All P (x ∷ xs) = P x × All P xs

abbrev pub Any {ℓ} : {A : Type ℓ} → (A → Type 0) → List A → Type 0
Any P [] = ⊥
Any P (x ∷ xs) = P x ⊎ Any P xs

-- Membership with its place.
abbrev pub Elem : {A : Type 0} → A → List A → Type 0
Elem a = Any (λ x. x ≡ a)

pub All-append :
    {A : Type 0} (P : A → Type 0) (xs ys : List A) → All P xs → All P ys → All P (xs ++ ys)
All-append P [] ys p q = q
All-append P (x ∷ xs) ys p q = (p.0, All-append P xs ys p.1 q)

pub All-at : {A : Type 0} (P : A → Type 0) (a : A) (xs : List A) → All P xs → Elem a xs → P a
All-at P a [] h m = absurd m
All-at P a (x ∷ xs) h (inl e) = rw e at h.0
All-at P a (x ∷ xs) h (inr m) = All-at P a xs h.1 m

-- A result, if there is one, satisfies the predicate.
abbrev pub IfSome : {A : Type 0} → (A → Type 0) → Option A → Type 0
IfSome Q none = Unit
IfSome Q (some a) = Q a

pub IfSome-at : {A : Type 0} (Q : A → Type 0) (o : Option A) (a : A) → IfSome Q o → o ≡ some a → Q a
IfSome-at Q o a h e = rw e at h

pub List-cases : {A : Type 0} (xs : List A) → (xs ≡ []) ⊎ ((y : A) × (ys : List A) × (xs ≡ y ∷ ys))
List-cases [] = inl refl
List-cases (x ∷ xs) = inr (x, xs, refl)

-- The lists one behind the other.
abbrev pub concat {ℓ} : {A : Type ℓ} → List (List A) → List A
concat [] = []
concat (xs ∷ xss) = xs ++ concat xss

-- `Any` over two lists.
pub Any-append_left : {A : Type 0} (P : A → Type 0) (xs ys : List A) → Any P xs → Any P (xs ++ ys)
Any-append_left P [] ys m = absurd m
Any-append_left P (x ∷ xs) ys (inl p) = inl p
Any-append_left P (x ∷ xs) ys (inr m) = inr (Any-append_left P xs ys m)

pub Any-append_right : {A : Type 0} (P : A → Type 0) (xs ys : List A) → Any P ys → Any P (xs ++ ys)
Any-append_right P [] ys m = m
Any-append_right P (x ∷ xs) ys m = inr (Any-append_right P xs ys m)

pub Any-split :
    {A : Type 0} (P : A → Type 0) (xs ys : List A) → Any P (xs ++ ys) → Any P xs ⊎ Any P ys
Any-split P [] ys m = inr m
Any-split P (x ∷ xs) ys (inl p) = inl (inl p)
Any-split P (x ∷ xs) ys (inr m) = elim (Any-split P xs ys m) [ inl a ↦ inl (inr a) | inr b ↦ inr b ]
