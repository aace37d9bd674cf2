-- ===== src/Logscan/State/RoundTrip/Decimal.antt =====
-- Numbers in decimal, printed and read.
use ctguard.Base.{
  ℕ, zero, suc, ◌+◌, ◌-◌, ◌*◌, ◌/◌, ◌%◌, ◌≤◌, ◌<◌, ◌≡◌, refl, ◌∙◌, ap, true, false, [], ◌∷◌, ◌++◌,
  Option, some, Bytes, ◌==◌, ltb, ltb→lt, arith, All-append, if◌then◌else◌, isdigit, length,
  Bool-cases, inl, inr, digits, decimal,
}
use ctguard.Helper.{max_long, read_digits}
use ctguard.Helper.Numbers.{value_of, AreDigits, digit_front, digit_sign}
use ctguard.Logscan.State.{drop_digits, read_number}

-- What ends a number.
abbrev pub Stops : Bytes → Type 0
Stops [] = Unit
Stops (c ∷ cs) = isdigit c ≡ false

read_digits-stop :
    (acc : ℕ) (ds rest : Bytes)
    → AreDigits ds
    → Stops rest
    → read_digits acc (ds ++ rest) ≡ (value_of acc ds, length ds)
unfolding read_digits
read_digits-stop acc [] [] h s = refl
read_digits-stop acc [] (c ∷ cs) h s = rw s refl
read_digits-stop acc (d ∷ ds) rest h s =
    rw (read_digits-stop (acc * 10 + (d - b'0')) ds rest h.1 s, h.0) refl

drop_digits-append : (ds rest : Bytes) → drop_digits (length ds) (ds ++ rest) ≡ rest
unfolding drop_digits
drop_digits-append [] rest = refl
drop_digits-append (d ∷ ds) rest = drop_digits-append ds rest

in_range :
    (v n : ℕ) (A : Option (ℕ × Bytes)) (x : Option (ℕ × Bytes)) (y : Option (ℕ × Bytes))
    → v ≤ max_long
    → (if suc n == 0 then x else if ltb max_long v then y else A) ≡ A
in_range v n A x y small = ground arith

read_number-digits :
    (c : ℕ) (cs rest : Bytes)
    → AreDigits (c ∷ cs)
    → Stops rest
    → value_of 0 (c ∷ cs) ≤ max_long
    → read_number (c ∷ (cs ++ rest)) ≡ some (value_of 0 (c ∷ cs), rest)
unfolding read_number
read_number-digits c cs rest h s small =
    rw
      (
        digit_front c (cs ++ rest) h.0,
        digit_sign c (cs ++ rest) h.0,
        read_digits-stop 0 (c ∷ cs) rest h s,
        drop_digits-append (c ∷ cs) rest,
      )
      (in_range (value_of 0 (c ∷ cs)) (length cs) _ _ _ small)

value_of-append : (acc : ℕ) (a b : Bytes) → value_of acc (a ++ b) ≡ value_of (value_of acc a) b
value_of-append acc [] b = refl
value_of-append acc (c ∷ a) b = value_of-append (acc * 10 + (c - b'0')) a b

-- How many numbers have so many digits.
unfoldable room : ℕ → ℕ
room zero = 1
room (suc n) = 10 * room n

digit_of : (n : ℕ) → n < 10 → isdigit (b'0' + n) ≡ true
unfolding isdigit
digit_of n h = ground arith

digits-AreDigits : (fuel n : ℕ) → AreDigits (digits fuel n)
unfolding digits
digits-AreDigits zero n = tt
digits-AreDigits (suc fuel) n = elim (Bool-cases (ltb n 10)) [
  | inl y ↦ rw y (digit_of n (ltb→lt n 10 y), tt)
  | inr e ↦ rw e (
      All-append _ (digits fuel (n / 10)) _ (digits-AreDigits fuel (n / 10))
        (digit_of (n % 10) (omega arith), tt))
]

digits-value : (fuel n : ℕ) → n < room fuel → value_of 0 (digits fuel n) ≡ n
unfolding digits room
digits-value zero n h = omega (arith, h)
digits-value (suc fuel) n h = elim (Bool-cases (ltb n 10)) [
  | inl y ↦ rw y (omega arith)
  | inr e ↦
      rw
        (
          e,
          value_of-append 0 (digits fuel (n / 10)) ((b'0' + n % 10) ∷ []),
          digits-value fuel (n / 10) (omega (arith, h)),
        )
        (omega arith)
]

snoc_front : (a : Bytes) (x : ℕ) → (c : ℕ) × (cs : Bytes) × (a ++ (x ∷ []) ≡ c ∷ cs)
snoc_front [] x = (x, [], refl)
snoc_front (c ∷ a) x = (c, a ++ (x ∷ []), refl)

digits-front : (fuel n : ℕ) → (c : ℕ) × (cs : Bytes) × (digits (suc fuel) n ≡ c ∷ cs)
unfolding digits
digits-front fuel n = elim (Bool-cases (ltb n 10)) [
  | inl y ↦ rw y (_, [], refl)
  | inr e ↦ rw e (snoc_front (digits fuel (n / 10)) _)
]

read_number-whole :
    (ds rest : Bytes) (n c : ℕ) (cs : Bytes)
    → ds ≡ c ∷ cs
    → AreDigits ds
    → value_of 0 ds ≡ n
    → Stops rest
    → n ≤ max_long
    → read_number (ds ++ rest) ≡ some (n, rest)
read_number-whole ds rest n c cs e h v s small =
    let digits : AreDigits (c ∷ cs) = rw e at h in
    let value : value_of 0 (c ∷ cs) ≡ n = rw e at v in
    rw e (read_number-digits c cs rest digits s (rw value small) ∙ ap (λ m. some (m, rest)) value)

pub decimal-AreDigits : (n : ℕ) → AreDigits (decimal n)
unfolding decimal
decimal-AreDigits n = digits-AreDigits 20 n

-- A number of 64 bits that is printed in front of something else is read.
pub read_number-decimal :
    (n : ℕ) (rest : Bytes)
    → n ≤ max_long
    → Stops rest
    → read_number (decimal n ++ rest) ≡ some (n, rest)
unfolding decimal room
read_number-decimal n rest small s =
    let (c, cs, e) = digits-front 19 n in
    read_number-whole (digits 20 n) rest n c cs e (digits-AreDigits 20 n)
      (digits-value 20 n (omega (arith, small))) s small
