-- ===== src/Diskscan/Mode.antt =====
-- `print_mode` of src/diskscan/filedata.cpp: a mode as `ls` shows it. A mode has 16 bits, and the
-- masks of <sys/stat.h> are its bits by their numbers.
pub mod RoundTrip
use ctguard.Base.{ℕ, ◌/◌, ◌%◌, ◌^◌, Bool, [], ◌∷◌, Bytes, ◌==◌, if◌then◌else◌}

-- `m & (1 << k)`
unfoldable pub has_bit : ℕ → ℕ → Bool
has_bit m k = (m / 2 ^ k) % 2 == 1

-- `m & S_IFMT`, shifted down.
unfoldable pub format_of : ℕ → ℕ
format_of m = (m / 2 ^ 12) % 16

unfoldable pub mode_to_type : ℕ → ℕ
mode_to_type f =
    if f == 8
    then b'-'
    else if f == 4
    then b'd'
    else if f == 6
    then b'b'
    else if f == 2
    then b'c'
    else if f == 1
    then b'p'
    else if f == 10
    then b'l'
    else if f == 12
    then b's'
    else b'?'

-- One character for a bit, and one for an execute bit with a special bit.
unfoldable pub flag : ℕ → Bool → ℕ
flag c b = if b then c else b'-'

unfoldable pub special : ℕ → ℕ → Bool → Bool → ℕ
special both alone s x = if s then (if x then both else alone) else if x then b'x' else b'-'

unfoldable pub print_mode : ℕ → Bytes
unfolding has_bit format_of mode_to_type flag special
print_mode m =
    mode_to_type (format_of m)
    ∷ flag b'r' (has_bit m 8)
    ∷ flag b'w' (has_bit m 7)
    ∷ special b's' b'S' (has_bit m 11) (has_bit m 6)
    ∷ flag b'r' (has_bit m 5)
    ∷ flag b'w' (has_bit m 4)
    ∷ special b's' b'l' (has_bit m 10) (has_bit m 3)
    ∷ flag b'r' (has_bit m 2)
    ∷ flag b'w' (has_bit m 1)
    ∷ special b't' b'T' (has_bit m 9) (has_bit m 0)
    ∷ []
