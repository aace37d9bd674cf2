-- ===== src/Base/Decimal.antt =====
-- `<<` of a number, as the standard library prints it: decimal, without a sign.
use Prim.Native.Nat.{ℕ, zero, suc, ◌+◌, ◌/◌, ◌%◌}
use mathlib.Core.List.{[], ◌∷◌, ◌++◌}
use ctguard.Base.Tests.{ltb, if◌then◌else◌}
use ctguard.Base.Text.{Bytes}

-- The digits of a number, with fuel.
unfoldable pub digits : ℕ → ℕ → Bytes
digits zero n = []
digits (suc fuel) n =
    let front = digits fuel (n / 10) in
    if ltb n 10 then (b'0' + n) ∷ [] else front ++ ((b'0' + n % 10) ∷ [])

-- A number of 64 bits has no more than 20 digits.
unfoldable pub decimal : ℕ → Bytes
decimal = digits 20
