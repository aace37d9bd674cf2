-- ===== src/Diskscan/Mode/RoundTrip.antt =====
-- A printed mode tells the mode.
use ctguard.Base.{
  ℕ, ◌+◌, ◌*◌, ◌/◌, ◌%◌, ◌^◌, ◌<◌, ◌≡◌, sym, Bool, true, false, List, [], ◌∷◌, Bytes, ◌==◌,
  if◌then◌else◌, arith, contains, nat_key, ◌||◌,
}
use ctguard.Diskscan.Mode.{has_bit, format_of, mode_to_type, flag, special, print_mode}

-- The value of a bit.
abbrev value : Bool → ℕ
value true = 1
value false = 0

-- The formats by their letters.
read_format : ℕ → ℕ
read_format c =
    if c == b'-'
    then 8
    else if c == b'd'
    then 4
    else if c == b'b'
    then 6
    else if c == b'c'
    then 2
    else if c == b'p'
    then 1
    else if c == b'l'
    then 10
    else 12

-- Three characters of a class, as its three bits; and whether its special bit is set.
read_class : ℕ → ℕ → ℕ → ℕ
read_class r w x =
    4 * value (r == b'r') + 2 * value (w == b'w') + value (x == b'x' || x == b's' || x == b't')

read_special : ℕ → ℕ
read_special x = value (x == b's' || x == b't' || x == b'S' || x == b'l' || x == b'T')

pub read_mode : Bytes → ℕ
unfolding read_format read_class read_special
read_mode (t ∷ a ∷ b ∷ c ∷ d ∷ e ∷ f ∷ g ∷ h ∷ i ∷ []) =
    read_format t * 4096
    + (4 * read_special c + 2 * read_special f + read_special i) * 512
    + read_class a b c * 64
    + read_class d e f * 8
    + read_class g h i
read_mode _ = 0

value_of : (n : ℕ) → value (n % 2 == 1) ≡ n % 2
value_of n = ground arith

class_user :
    (p q s x : Bool)
    → (read_class (flag b'r' p) (flag b'w' q) (special b's' b'S' s x)
        ≡ 4 * value p + 2 * value q + value x)
      × (read_special (special b's' b'S' s x) ≡ value s)
unfolding read_class read_special flag special
class_user p q s x = ground arith

class_group :
    (p q s x : Bool)
    → (read_class (flag b'r' p) (flag b'w' q) (special b's' b'l' s x)
        ≡ 4 * value p + 2 * value q + value x)
      × (read_special (special b's' b'l' s x) ≡ value s)
unfolding read_class read_special flag special
class_group p q s x = ground arith

class_other :
    (p q s x : Bool)
    → (read_class (flag b'r' p) (flag b'w' q) (special b't' b'T' s x)
        ≡ 4 * value p + 2 * value q + value x)
      × (read_special (special b't' b'T' s x) ≡ value s)
unfolding read_class read_special flag special
class_other p q s x = ground arith

-- The formats that <sys/stat.h> names.
abbrev pub formats : List ℕ
formats = 8 ∷ 4 ∷ 6 ∷ 2 ∷ 1 ∷ 10 ∷ 12 ∷ []

format_back : (f : ℕ) → contains f formats ≡ true → read_format (mode_to_type f) ≡ f
unfolding contains read_format mode_to_type
format_back f h = ground arith

-- The bits of a number, three at a time.
bits :
    (m : ℕ)
    → m < 2 ^ 16
    → m
      ≡ (m / 2 ^ 12) % 16 * 4096
        + (4 * ((m / 2 ^ 11) % 2) + 2 * ((m / 2 ^ 10) % 2) + (m / 2 ^ 9) % 2) * 512
        + (4 * ((m / 2 ^ 8) % 2) + 2 * ((m / 2 ^ 7) % 2) + (m / 2 ^ 6) % 2) * 64
        + (4 * ((m / 2 ^ 5) % 2) + 2 * ((m / 2 ^ 4) % 2) + (m / 2 ^ 3) % 2) * 8
        + (4 * ((m / 2 ^ 2) % 2) + 2 * ((m / 2 ^ 1) % 2) + (m / 2 ^ 0) % 2)
bits m h = omega arith

-- A mode of 16 bits, of a format that <sys/stat.h> names, can be read off its text: print_mode loses
-- none of the bits and confuses none of the formats.
pub read_mode-print_mode :
    (m : ℕ) → m < 2 ^ 16 → contains (format_of m) formats ≡ true → read_mode (print_mode m) ≡ m
unfolding print_mode read_mode has_bit
read_mode-print_mode m h known =
    let (user, setuid) = class_user (has_bit m 8) (has_bit m 7) (has_bit m 11) (has_bit m 6) in
    let (group, setgid) = class_group (has_bit m 5) (has_bit m 4) (has_bit m 10) (has_bit m 3) in
    let (other, sticky) = class_other (has_bit m 2) (has_bit m 1) (has_bit m 9) (has_bit m 0) in
    rw (user, setuid, group, setgid, other, sticky, format_back (format_of m) known)
      (simp value_of (unfold format_of in sym (bits m h)))
