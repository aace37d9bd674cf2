-- ===== src/Helper.antt =====
pub mod Numbers
-- src/libs/parsehelper.hpp, and the conversion `std::stoul` that it calls.
use ctguard.Base.{
  ℕ, suc, ◌+◌, ◌-◌, ◌*◌, ◌%◌, ◌^◌, Bool, true, false, ◌||◌, List, [], ◌∷◌, Bytes, codes, beq,
  isspace, isdigit, ltb, leb, ◌==◌, if◌then◌else◌, length, Outcome, ok, err, ◌>>=◌, ◌>>◌, guard,
  not,
}

pub data NumberError : Type 0 where
  no_conversion beyond_long incomplete too_big bad_bool bad_arity bad_unit : NumberError

abbrev pub Parsed : Type 0 → Type 0
Parsed A = Outcome NumberError A

-- `std::numeric_limits<unsigned long>::max()`
abbrev pub max_long : ℕ
max_long = 2 ^ 64 - 1

-- The leading white space: how long it is, and what stands behind it.
unfoldable pub skip_space : Bytes → ℕ × Bytes
skip_space [] = (0, [])
skip_space (c ∷ cs) =
    let (n, rest) = skip_space cs in if isspace c then (suc n, rest) else (0, c ∷ cs)

-- A sign, if there is one: whether it is `-`, its length, and what stands behind it.
unfoldable pub read_sign : Bytes → Bool × ℕ × Bytes
read_sign [] = (false, 0, [])
read_sign (c ∷ cs) =
    if c == b'-' then (true, 1, cs) else if c == b'+' then (false, 1, cs) else (false, 0, c ∷ cs)

-- The digits at the front: their value behind `acc`, and their number.
unfoldable pub read_digits : ℕ → Bytes → ℕ × ℕ
read_digits acc [] = (acc, 0)
read_digits acc (c ∷ cs) =
    let (v, n) = read_digits (acc * 10 + (c - b'0')) cs in
    if isdigit c then (v, suc n) else (acc, 0)

-- `std::stoul(content, &pos)` for 64 bits: the value and `pos`. A negative number is taken
-- modulo 2^64, as `strtoul` does.
unfoldable pub stoul : Bytes → Parsed (ℕ × ℕ)
unfolding skip_space read_sign read_digits
stoul content =
    let (spaces, text) = skip_space content in
    let (negative, sign, number) = read_sign text in
    let (value, digits) = read_digits 0 number in
    if digits == 0
    then err no_conversion
    else if ltb max_long value
    then err beyond_long
    else ok (if negative then (2 ^ 64 - value) % 2 ^ 64 else value, spaces + sign + digits)

-- `parse_integral<T>`, with the largest value of `T`.
unfoldable pub parse_integral : ℕ → Bytes → Parsed ℕ
parse_integral max content = do
  (result_orig, pos) ← stoul content
  guard (pos == length content) incomplete
  guard (leb result_orig max) too_big
  ok result_orig

unfoldable pub parse_bool : Bytes → Parsed Bool
parse_bool value =
    if beq value (codes "true") || beq value (codes "TRUE")
    then ok true
    else if beq value (codes "false") || beq value (codes "FALSE")
    then ok false
    else err bad_bool

-- `std::numeric_limits<unsigned int>::max()` and `unsigned short`'s.
abbrev pub max_int : ℕ
max_int = 4294967295

abbrev pub max_short : ℕ
max_short = 65535

-- The number in seconds by its unit: the products are of `unsigned int`, and wrap.
unfoldable pub in_seconds : ℕ → Bytes → Parsed ℕ
in_seconds number unit =
    if beq unit (codes "s")
    then ok number
    else if beq unit (codes "m")
    then ok (number * 60 % 2 ^ 32)
    else if beq unit (codes "h")
    then ok (number * 60 % 2 ^ 32 * 60 % 2 ^ 32)
    else err bad_unit

unfoldable pub parse_second_duration : List Bytes → Parsed ℕ
unfolding in_seconds
parse_second_duration (number ∷ []) = parse_integral max_int number
parse_second_duration (number ∷ unit ∷ []) = do n ← parse_integral max_int number; in_seconds n unit
parse_second_duration _ = err bad_arity
