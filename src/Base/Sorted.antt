-- ===== src/Base/Sorted.antt =====
-- The order of texts, and maps in key order.
use mathlib.Core.Path.{◌≡◌, refl}
use mathlib.Core.Bool.{true, false}
use mathlib.Core.Logic.{inl, inr}
use mathlib.Core.List.{List, [], ◌∷◌}
use native.Mathlib.Omega.{arith}
use ctguard.Base.Tests.{Bool-cases}
use ctguard.Base.Text.{Bytes, beq, before}
use ctguard.Base.Maps.{text_key, assign}

before_trans : (a b c : Bytes) → before a b ≡ true → before b c ≡ true → before a c ≡ true
unfolding before
before_trans [] (y ∷ b) (z ∷ c) h k = refl
before_trans (x ∷ a) (y ∷ b) (z ∷ c) h k = ground (arith, before_trans a b c)
before_trans a b [] h k = cc
before_trans a [] c h k = cc

before_total : (a b : Bytes) → beq b a ≡ false → before a b ≡ false → before b a ≡ true
unfolding before beq
before_total [] [] e h = cc
before_total [] (y ∷ b) e h = cc
before_total (x ∷ a) [] e h = refl
before_total (x ∷ a) (y ∷ b) e h = ground (arith, before_total a b)

pub before_distinct : (a b : Bytes) → before a b ≡ true → beq b a ≡ false
unfolding before beq
before_distinct [] (y ∷ b) h = refl
before_distinct (x ∷ a) (y ∷ b) h = ground (arith, before_distinct a b)
before_distinct [] [] h = absurd (cc)
before_distinct (x ∷ a) [] h = refl

module _ {V : Type 0} where
  -- Every key comes behind `k`.
  abbrev pub Behind : Bytes → List (Bytes × V) → Type 0
  Behind k [] = Unit {0}
  Behind k ((j, v) ∷ m) = (before k j ≡ true) × Behind k m

  -- In key order, so that no key stands twice.
  abbrev pub Sorted : List (Bytes × V) → Type 0
  Sorted [] = Unit {0}
  Sorted ((k, v) ∷ m) = Behind k m × Sorted m

  Behind-before : (k j : Bytes) (m : List (Bytes × V)) → before k j ≡ true → Behind j m → Behind k m
  Behind-before k j [] l h = tt
  Behind-before k j ((i, v) ∷ m) l h = (before_trans k j i l h.0, Behind-before k j m l h.1)

  assign-Behind :
      (i k : Bytes) (v : V) (m : List (Bytes × V))
      → before i k ≡ true
      → Behind i m
      → Behind i (assign k v m)
  unfolding assign
  assign-Behind i k v [] l h = (l, tt)
  assign-Behind i k v ((j, w) ∷ m) l h = elim (Bool-cases (beq j k)) [
    | inl e ↦ rw e h
    | inr e ↦ rw e (elim (Bool-cases (before k j)) [
      | inl b ↦ rw b (l, h)
      | inr b ↦ rw b (h.0, assign-Behind i k v m l h.1)
    ])
  ]

  -- `m[k] = v` keeps a map in key order.
  pub assign-Sorted : (k : Bytes) (v : V) (m : List (Bytes × V)) → Sorted m → Sorted (assign k v m)
  unfolding assign
  assign-Sorted k v [] s = (tt, tt)
  assign-Sorted k v ((j, w) ∷ m) s = elim (Bool-cases (beq j k)) [
    | inl e ↦ rw e s
    | inr e ↦ rw e (elim (Bool-cases (before k j)) [
      | inl b ↦ rw b ((b, Behind-before k j m b s.0), s)
      | inr b ↦ rw b (assign-Behind j k v m (before_total k j e b) s.0, assign-Sorted k v m s.1)
    ])
  ]
