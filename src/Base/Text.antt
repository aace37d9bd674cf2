-- ===== src/Base/Text.antt =====
-- Text as the list of its bytes (`std::string`), and its comparisons.
use Prim.Native.Nat.{ℕ}
use Prim.Native.Char.{code}
use Prim.Native.String.{String}
use mathlib.Core.Path.{◌≡◌}
use mathlib.Core.Bool.{Bool, true, false, ◌&&◌, ◌||◌}
use mathlib.Core.List.{List, [], ◌∷◌}
use mathlib.Core.Logic.{◌↔◌}
use native.Mathlib.Omega.{arith}
use ctguard.Base.Tests.{ltb, leb, ◌==◌}

abbrev pub Bytes : Type 0
Bytes = List ℕ

abbrev pub codes : String → Bytes
codes String.[] = []
codes (String.◌∷◌ c s) = code c ∷ codes s

-- `==` of two strings.
unfoldable pub beq : Bytes → Bytes → Bool
beq [] [] = true
beq (x ∷ xs) (y ∷ ys) = x == y && beq xs ys
beq _ _ = false

pub beq_iff : (a b : Bytes) → (beq a b ≡ true) ↔ (a ≡ b)
unfolding beq
beq_iff (x ∷ a) (y ∷ b) = ground (arith, beq_iff a b)
beq_iff _ _ = ground arith

-- `<` of two strings: the first byte that differs decides.
unfoldable pub before : Bytes → Bytes → Bool
before [] [] = false
before [] (y ∷ ys) = true
before (x ∷ xs) [] = false
before (x ∷ xs) (y ∷ ys) = ltb x y || (x == y && before xs ys)

unfoldable pub is_empty {ℓ} : {A : Type ℓ} → List A → Bool
is_empty [] = true
is_empty (x ∷ xs) = false

pub is_empty_iff {ℓ} : {A : Type ℓ} (xs : List A) → (is_empty xs ≡ true) ↔ (xs ≡ [])
unfolding is_empty
is_empty_iff [] = ground arith
is_empty_iff (x ∷ xs) = ground arith

-- The C locale's classes of characters.
abbrev within : ℕ → ℕ → ℕ → Bool
within lo hi c = leb lo c && leb c hi

unfoldable pub isspace : ℕ → Bool
isspace c = c == 32 || within 9 13 c

unfoldable pub isdigit : ℕ → Bool
isdigit c = within b'0' b'9' c

unfoldable pub isalpha : ℕ → Bool
isalpha c = within b'a' b'z' c || within b'A' b'Z' c

unfoldable pub isalnum : ℕ → Bool
unfolding isalpha isdigit
isalnum c = isalpha c || isdigit c
