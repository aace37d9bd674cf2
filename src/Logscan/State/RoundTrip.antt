-- ===== src/Logscan/State/RoundTrip.antt =====
-- The state file, written and read.
pub mod Decimal
use ctguard.Base.{
  ℕ, zero, suc, ◌+◌, ◌-◌, ◌%◌, ◌^◌, ◌≤◌, ◌<◌, ◌≡◌, ◌≢◌, refl, sym, ◌∙◌, ap, true, false, List, [],
  ◌∷◌, ◌++◌, map, append_assoc, append-nil, Option, none, some, Bytes, codes, ◌==◌, ==_iff, arith,
  is_empty, All, All-append, ok, ◌>>=◌, if◌then◌else◌, isdigit, Bool-cases, inl, inr, isspace,
  decimal,
}
use ctguard.Helper.{max_long, skip_space, read_sign, read_digits}
use ctguard.Helper.Numbers.{AreDigits}
use ctguard.Logscan.Lines.{lines}
use ctguard.Logscan.Logfile.{Logfile}
use ctguard.Logscan.State.{
  print_position, state_body, state_line, save_state, cut_at, read_number, read_pos, read_numbers,
  read_behind, read_line, read_state_lines, with_state, get_state, drop_digits,
}
use ctguard.Logscan.State.RoundTrip.Decimal.{Stops, read_number-decimal, decimal-AreDigits}

-- The number that stands for a position: the highest one for -1.
abbrev pub number_of : Option ℕ → ℕ
number_of none = max_long
number_of (some p) = p

-- What is read of a file's state.
abbrev pub saved : Logfile → Bytes × ℕ × ℕ
saved ls = (ls.config.path, ls.inode, number_of ls.position)

-- The path has no quote and no newline, and the numbers have 64 bits.
abbrev pub Writable : Logfile → Type 0
Writable ls =
    All (λ c. (c ≢ b'"') × (c ≢ b'\n')) ls.config.path
    × (ls.inode ≤ max_long)
    × (number_of ls.position ≤ max_long)

abbrev Unbroken : Bytes → Type 0
Unbroken = All (λ c. c ≢ b'\n')

differs : (c : ℕ) → c ≢ b'\n' → (c == b'\n') ≡ false
differs c h = ground arith

lines-whole :
    (line l rest : Bytes)
    → Unbroken l
    → is_empty (line ++ l) ≡ false
    → lines line (l ++ (b'\n' ∷ rest)) ≡ (line ++ l) ∷ lines [] rest
unfolding lines
lines-whole line [] rest h e =
    let f : is_empty line ≡ false = rw (append-nil line) at e in rw (f, append-nil line) refl
lines-whole line (c ∷ l) rest h e =
    let other : (c == b'\n') ≡ false = differs c h.0 in
    let f : is_empty ((line ++ (c ∷ [])) ++ l) ≡ false =
      ap is_empty (append_assoc line (c ∷ []) l) ∙ e in
    rw (other, lines)
      (lines-whole (line ++ (c ∷ [])) l rest h.1 f
        ∙ ap (λ t. t ∷ lines [] rest) (append_assoc line (c ∷ []) l))

cut_at-quote :
    (path rest : Bytes)
    → All (λ c. (c ≢ b'"') × (c ≢ b'\n')) path
    → cut_at b'"' (path ++ (b'"' ∷ rest)) ≡ some (path, rest)
unfolding cut_at
cut_at-quote [] rest h = refl
cut_at-quote (c ∷ path) rest h = ground (arith, cut_at-quote path rest h.1)

read_minus : read_number (codes "-1") ≡ some (max_long, [])
unfolding read_number skip_space read_sign read_digits drop_digits isspace isdigit
read_minus = refl

comma_stops : isdigit b',' ≡ false
unfolding isdigit
comma_stops = refl

read_position :
    (p : Option ℕ)
    → number_of p ≤ max_long
    → read_number (print_position p) ≡ some (number_of p, [])
unfolding print_position
read_position none h = read_minus
read_position (some n) h =
    ap read_number (sym (append-nil (decimal n))) ∙ read_number-decimal n [] h tt

read_pos-printed :
    (inode : ℕ) (p : Option ℕ)
    → number_of p ≤ max_long
    → read_pos inode (b',' ∷ print_position p) ≡ some (inode, number_of p)
unfolding read_pos
read_pos-printed inode p k = rw (read_position p k, read_pos) refl

read_numbers-printed :
    (inode : ℕ) (p : Option ℕ)
    → inode ≤ max_long
    → number_of p ≤ max_long
    → read_numbers (decimal inode ++ (b',' ∷ print_position p)) ≡ some (inode, number_of p)
unfolding read_numbers
read_numbers-printed inode p h k =
    rw (read_number-decimal inode (b',' ∷ print_position p) h comma_stops, read_numbers)
      (read_pos-printed inode p k)

read_line-body : (ls : Logfile) → Writable ls → read_line (state_body ls) ≡ ok (some (saved ls))
unfolding read_line read_behind state_body
read_line-body ls (path, inode, position) =
    rw
      (
        cut_at-quote ls.config.path
            (b',' ∷ (decimal ls.inode ++ (b',' ∷ print_position ls.position))) path,
        read_numbers-printed ls.inode ls.position inode position,
        read_line,
        read_behind,
      )
      refl

Unbroken-digits : (ds : Bytes) → AreDigits ds → Unbroken ds
unfolding isdigit
Unbroken-digits [] h = tt
Unbroken-digits (d ∷ ds) h = (λ e. ground (arith, h.0), Unbroken-digits ds h.1)

Unbroken-path : (path : Bytes) → All (λ c. (c ≢ b'"') × (c ≢ b'\n')) path → Unbroken path
Unbroken-path [] h = tt
Unbroken-path (c ∷ path) h = (h.0.1, Unbroken-path path h.1)

Unbroken-position : (p : Option ℕ) → Unbroken (print_position p)
unfolding print_position
Unbroken-position none = ((λ e. ground arith), ((λ e. ground arith), tt))
Unbroken-position (some n) = Unbroken-digits (decimal n) (decimal-AreDigits n)

Unbroken-body : (ls : Logfile) → Writable ls → Unbroken (state_body ls)
unfolding state_body
Unbroken-body ls w =
    let behind : Unbroken (b',' ∷ print_position ls.position) =
      (λ e. ground arith, Unbroken-position ls.position) in
    let inode : Unbroken (decimal ls.inode ++ (b',' ∷ print_position ls.position)) =
      All-append _ (decimal ls.inode) _
        (Unbroken-digits (decimal ls.inode) (decimal-AreDigits ls.inode)) behind in
    let rest : Unbroken (b'"' ∷ b',' ∷ (decimal ls.inode ++ (b',' ∷ print_position ls.position))) =
      (λ e. ground arith, (λ e. ground arith, inode)) in
    (λ e. ground arith, All-append _ ls.config.path _ (Unbroken-path ls.config.path w.0) rest)

body_nonempty : (ls : Logfile) → is_empty (state_body ls) ≡ false
unfolding state_body is_empty
body_nonempty ls = refl

lines-state :
    (ls : Logfile) (files : List Logfile)
    → Writable ls
    → lines [] (save_state (ls ∷ files)) ≡ state_body ls ∷ lines [] (save_state files)
unfolding save_state state_line
lines-state ls files w =
    ap (lines []) (append_assoc (state_body ls) (codes "\n") (save_state files))
    ∙ lines-whole [] (state_body ls) (save_state files) (Unbroken-body ls w) (body_nonempty ls)

read_state_lines-first :
    (l : Bytes) (ls : List Bytes) (s : Bytes × ℕ × ℕ) (ss : List (Bytes × ℕ × ℕ))
    → read_line l ≡ ok (some s)
    → read_state_lines ls ≡ ok ss
    → read_state_lines (l ∷ ls) ≡ ok (s ∷ ss)
unfolding read_state_lines with_state
read_state_lines-first l ls s ss e f = rw (e, f) refl

read_saved :
    (files : List Logfile)
    → All Writable files
    → read_state_lines (lines [] (save_state files)) ≡ ok (map saved files)
unfolding save_state lines is_empty read_state_lines
read_saved [] h = refl
read_saved (ls ∷ files) h =
    ap read_state_lines (lines-state ls files h.0)
    ∙ read_state_lines-first (state_body ls) (lines [] (save_state files)) (saved ls)
        (map saved files) (read_line-body ls h.0) (read_saved files h.1)

-- What save_state writes for files with paths of no quote and no newline, and with numbers of 64
-- bits, get_state reads back: the paths, the inodes and the positions, -1 as the highest number.
pub get_state-save_state :
    (files : List Logfile)
    → All Writable files
    → get_state (some (save_state files)) ≡ ok (map saved files)
unfolding get_state
get_state-save_state files h = read_saved files h
