-- ===== src/Base/Maps.antt =====
-- `std::map` and `std::set` as lists in key order, over an interface for the keys.
use Prim.Native.Nat.{ℕ}
use mathlib.Core.Path.{◌≡◌, refl}
use mathlib.Core.Bool.{Bool, true, false, ◌||◌}
use mathlib.Core.List.{List, [], ◌∷◌}
use mathlib.Core.Logic.{◌↔◌}
use mathlib.Core.Option.{Option, none, some}
use native.Mathlib.Omega.{arith}
use ctguard.Base.Tests.{ltb, ◌==◌, ==_iff, if◌then◌else◌}
use ctguard.Base.Text.{Bytes, beq, beq_iff, before}

pub record Key (K : Type 0) : Type 0 where
  pub same : K → K → Bool
  pub precedes : K → K → Bool
  pub same_iff : (a b : K) → (same a b ≡ true) ↔ (a ≡ b)

instance abbrev pub nat_key : Key ℕ
nat_key = record { same = ◌==◌; precedes = ltb; same_iff = ==_iff }

instance abbrev pub text_key : Key Bytes
text_key = record { same = beq; precedes = before; same_iff = beq_iff }

module _ {K V : Type 0} ⦃o : Key K⦄ where
  open o use {same, precedes, same_iff}

  -- `find`
  unfoldable pub lookup : K → List (K × V) → Option V
  lookup k [] = none
  lookup k ((j, v) ∷ m) = if same j k then some v else lookup k m

  -- `m[k] = v`
  unfoldable pub assign : K → V → List (K × V) → List (K × V)
  assign k v [] = (k, v) ∷ []
  assign k v ((j, w) ∷ m) =
      if same j k
      then (j, v) ∷ m
      else if precedes k j
      then (k, v) ∷ (j, w) ∷ m
      else (j, w) ∷ assign k v m

  -- `emplace`, `insert`: a key that is there keeps its value.
  unfoldable pub emplace : K → V → List (K × V) → List (K × V)
  emplace k v m = elim (lookup k m) [ none ↦ assign k v m | some w ↦ m ]

  -- `DELETE … WHERE` the key is k.
  unfoldable pub remove_key : K → List (K × V) → List (K × V)
  remove_key k [] = []
  remove_key k ((j, v) ∷ m) = let rest = remove_key k m in if same j k then rest else (j, v) ∷ rest

  pub lookup-remove_key :
      (k j : K) (m : List (K × V))
      → lookup j (remove_key k m) ≡ (if same k j then none else lookup j m)
  unfolding lookup remove_key
  lookup-remove_key k j [] = ground (arith, same_iff k j)
  lookup-remove_key k j ((i, w) ∷ m) =
      ground (arith, same_iff k j, same_iff i k, same_iff i j, lookup-remove_key k j m)

  pub lookup-assign :
      (k j : K) (v : V) (m : List (K × V))
      → lookup j (assign k v m) ≡ (if same k j then some v else lookup j m)
  unfolding lookup assign
  lookup-assign k j v [] = refl
  lookup-assign k j v ((i, w) ∷ m) =
      ground (arith, same_iff k j, same_iff i k, same_iff i j, lookup-assign k j v m)

  pub lookup-emplace :
      (k j : K) (v : V) (m : List (K × V))
      → lookup j (emplace k v m)
        ≡ (elim (lookup j m) [ none ↦ if same k j then some v else none | some w ↦ some w ])
  unfolding emplace
  lookup-emplace k j v m = ground (arith, lookup-assign k j v m, same_iff k j)

module _ {K : Type 0} ⦃o : Key K⦄ where
  open o use {same, precedes, same_iff}

  unfoldable pub contains : K → List K → Bool
  contains k [] = false
  contains k (j ∷ s) = same j k || contains k s

  -- `std::set::insert`
  unfoldable pub insert : K → List K → List K
  insert k [] = k ∷ []
  insert k (j ∷ s) = if same j k then j ∷ s else if precedes k j then k ∷ j ∷ s else j ∷ insert k s

  -- `s.insert(first, last)`
  unfoldable pub insert_all : List K → List K → List K
  unfolding insert
  insert_all [] s = s
  insert_all (k ∷ ks) s = insert_all ks (insert k s)

  pub contains-insert :
      (k j : K) (s : List K) → contains j (insert k s) ≡ (same k j || contains j s)
  unfolding contains insert
  contains-insert k j [] = refl
  contains-insert k j (i ∷ s) =
      ground (arith, same_iff k j, same_iff i k, same_iff i j, contains-insert k j s)

  pub contains-insert_all :
      (j : K) (ks s : List K) → contains j (insert_all ks s) ≡ (contains j ks || contains j s)
  unfolding contains insert_all
  contains-insert_all j [] s = refl
  contains-insert_all j (k ∷ ks) s =
      ground (arith, contains-insert_all j ks (insert k s), contains-insert k j s)
