-- ===== src/Helper/Numbers.antt =====
-- What `parse_integral` accepts, and when a duration wraps.
use ctguard.Base.{
  ℕ, suc, ◌+◌, ◌-◌, ◌*◌, ◌%◌, ◌^◌, ◌≤◌, ◌<◌, ◌≡◌, refl, ◌∙◌, true, false, [], ◌∷◌, Bytes, codes,
  beq, isspace, isdigit, ltb, leb, leb→le, le→leb, Post, Whatever, Post-then, Post-guard,
  Post-eq-ok, Post-bind, if-both, List, ◌==◌, if◌then◌else◌, length, All, ok, err, ◌>>◌, guard,
  arith,
}
use ctguard.Helper.{
  Parsed, too_big, incomplete, max_long, max_int, skip_space, read_sign, read_digits, stoul,
  parse_integral, in_seconds, parse_second_duration,
}

-- The number that decimal digits stand for, read from the front.
abbrev pub value_of : ℕ → Bytes → ℕ
value_of acc [] = acc
value_of acc (c ∷ cs) = value_of (acc * 10 + (c - b'0')) cs

abbrev pub AreDigits : Bytes → Type 0
AreDigits = All (λ c. isdigit c ≡ true)

read_digits-all :
    (ds : Bytes) (acc : ℕ) → AreDigits ds → read_digits acc ds ≡ (value_of acc ds, length ds)
unfolding read_digits
read_digits-all [] acc h = refl
read_digits-all (c ∷ cs) acc h = rw (read_digits-all cs (acc * 10 + (c - b'0')) h.1, h.0)

pub digit_front : (c : ℕ) (cs : Bytes) → isdigit c ≡ true → skip_space (c ∷ cs) ≡ (0, c ∷ cs)
unfolding skip_space isdigit isspace
digit_front c cs h = ground arith

pub digit_sign : (c : ℕ) (cs : Bytes) → isdigit c ≡ true → read_sign (c ∷ cs) ≡ (false, 0, c ∷ cs)
unfolding read_sign isdigit
digit_sign c cs h = ground arith

in_range :
    (v n : ℕ) (x y z : Parsed (ℕ × ℕ))
    → v ≤ max_long
    → (if suc n == 0 then x else if ltb max_long v then y else z) ≡ z
in_range v n x y z small = ground arith

whole_fits :
    (n v max : ℕ)
    → (guard (n == n) incomplete >> (guard (leb v max) too_big >> ok v))
      ≡ (if leb v max then ok v else err too_big)
whole_fits n v max = ground arith

no_front : (n : ℕ) → 0 + 0 + n ≡ n
no_front n = omega arith

stoul_digits :
    (c : ℕ) (cs : Bytes)
    → AreDigits (c ∷ cs)
    → value_of 0 (c ∷ cs) ≤ max_long
    → stoul (c ∷ cs) ≡ ok (value_of 0 (c ∷ cs), length (c ∷ cs))
unfolding stoul
stoul_digits c cs h small =
    rw
      (
        digit_front c cs h.0,
        digit_sign c cs h.0,
        read_digits-all (c ∷ cs) 0 h,
        no_front (length (c ∷ cs)),
      )
      (in_range (value_of 0 (c ∷ cs)) (length cs) _ _ _ small)

-- A number in decimal digits is read as its value, if the type has room for it, and refused if not.
pub parse_integral-digits :
    (max c : ℕ) (cs : Bytes)
    → AreDigits (c ∷ cs)
    → value_of 0 (c ∷ cs) ≤ max_long
    → parse_integral max (c ∷ cs)
      ≡ (if leb (value_of 0 (c ∷ cs)) max then ok (value_of 0 (c ∷ cs)) else err too_big)
unfolding parse_integral
parse_integral-digits max c cs h small =
    rw (stoul_digits c cs h small) (whole_fits (length (c ∷ cs)) (value_of 0 (c ∷ cs)) max)

small_enough :
    (max : ℕ) (content : Bytes) → Post Whatever (λ n. n ≤ max) (parse_integral max content)
unfolding parse_integral
small_enough max content =
    Post-then (λ n. n ≤ max) (stoul content) _
      λ r.
        Post-guard (λ n. n ≤ max) (r.1 == length content) incomplete _
          λ whole. Post-guard (λ n. n ≤ max) (leb (r.0) max) too_big (ok (r.0)) (leb→le (r.0) max)

-- Whatever the text, a number that is accepted fits the type.
pub parse_integral-le :
    (max : ℕ) (content : Bytes) {n : ℕ} → parse_integral max content ≡ ok n → n ≤ max
parse_integral-le max content e =
    Post-eq-ok (λ n. n ≤ max) (parse_integral max content) (small_enough max content) e

accepted :
    (c : ℕ) (cs : Bytes)
    → AreDigits (c ∷ cs)
    → value_of 0 (c ∷ cs) ≤ max_int
    → parse_integral max_int (c ∷ cs) ≡ ok (value_of 0 (c ∷ cs))
accepted c cs h small =
    parse_integral-digits max_int c cs h (omega arith)
    ∙ rw (le→leb (value_of 0 (c ∷ cs)) max_int small) refl

hours_mod : (v : ℕ) → v * 3600 < 2 ^ 32 → v * 60 % 2 ^ 32 * 60 % 2 ^ 32 ≡ v * 3600
hours_mod v small = omega arith

minutes_mod : (v : ℕ) → v * 60 < 2 ^ 32 → v * 60 % 2 ^ 32 ≡ v * 60
minutes_mod v small = omega arith

-- A duration in decimal digits and hours is its number of seconds, if an `unsigned int` can hold
-- that.
parse_second_duration-hours :
    (c : ℕ) (cs : Bytes)
    → AreDigits (c ∷ cs)
    → value_of 0 (c ∷ cs) * 3600 < 2 ^ 32
    → parse_second_duration ((c ∷ cs) ∷ codes "h" ∷ []) ≡ ok (value_of 0 (c ∷ cs) * 3600)
unfolding parse_second_duration in_seconds beq
parse_second_duration-hours c cs h small =
    rw (accepted c cs h (omega arith), hours_mod (value_of 0 (c ∷ cs)) small) refl

in_seconds-le :
    (n : ℕ) (unit : Bytes) → n ≤ max_int → Post Whatever (λ m. m ≤ max_int) (in_seconds n unit)
unfolding in_seconds
in_seconds-le n unit h =
    let Small : Parsed ℕ → Type 0 = Post Whatever (λ m. m ≤ max_int) in
    if-both Small (beq unit (codes "s")) _ _ h (
      if-both Small (beq unit (codes "m")) _ _ (omega arith)
        (if-both Small (beq unit (codes "h")) _ _ (omega arith) tt))

-- A duration has room in an `unsigned int`.
pub parse_second_duration-le :
    (vs : List Bytes) (n : ℕ) → parse_second_duration vs ≡ ok n → n ≤ max_int
unfolding parse_second_duration
parse_second_duration-le [] n e = absurd cc
parse_second_duration-le (v ∷ []) n e = parse_integral-le max_int v e
parse_second_duration-le (v ∷ u ∷ []) n e =
    Post-eq-ok (λ m. m ≤ max_int) _
      (Post-bind Whatever (λ m. m ≤ max_int) (λ m. m ≤ max_int) (parse_integral max_int v) _
        (small_enough max_int v) (λ m h. in_seconds-le m u h))
      e
parse_second_duration-le (v ∷ u ∷ w ∷ vs) n e = absurd cc
