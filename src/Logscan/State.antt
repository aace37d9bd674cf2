-- ===== src/Logscan/State.antt =====
-- `save_state` and `get_state` of src/logscan/daemon.cpp: the text of the state file. The standard
-- library's printing and reading of numbers is decimal, and a minus sign is read modulo 2^64.
pub mod RoundTrip
use ctguard.Base.{
  ℕ, zero, suc, ◌+◌, ◌-◌, ◌*◌, ◌/◌, ◌%◌, ◌^◌, Bool, true, false, List, [], ◌∷◌, ◌++◌, Option, none,
  some, Bytes, codes, ◌==◌, ltb, if◌then◌else◌, is_empty, Outcome, ok, err, ◌>>=◌, decimal,
}
use ctguard.Helper.{skip_space, read_sign, read_digits, max_long}
use ctguard.Logscan.Lines.{lines}
use ctguard.Logscan.Logfile.{Logfile}

unfoldable pub print_position : Option ℕ → Bytes
print_position none = codes "-1"
print_position (some p) = decimal p

unfoldable pub state_body : Logfile → Bytes
state_body ls =
    b'"'
    ∷ (ls.config.path
        ++ (codes "\"," ++ (decimal ls.inode ++ (codes "," ++ print_position ls.position))))

unfoldable pub state_line : Logfile → Bytes
state_line ls = state_body ls ++ codes "\n"

-- What the state file holds, if it can be opened and renamed.
unfoldable pub save_state : List Logfile → Bytes
save_state [] = []
save_state (ls ∷ files) = state_line ls ++ save_state files

-- `is >> n` for an unsigned number of 64 bits: the number and the rest, or none for `fail()`.
unfoldable pub drop_digits : ℕ → Bytes → Bytes
drop_digits zero text = text
drop_digits (suc n) [] = []
drop_digits (suc n) (c ∷ cs) = drop_digits n cs

unfoldable pub read_number : Bytes → Option (ℕ × Bytes)
read_number text =
    let (spaces, signed) = skip_space text in
    let (negative, sign, number) = read_sign signed in
    let (value, count) = read_digits 0 number in
    if count == 0
    then none
    else if ltb max_long value
    then none
    else some (if negative then (2 ^ 64 - value) % 2 ^ 64 else value, drop_digits count number)

-- The text up to a character and what stands behind it, if it is there.
unfoldable pub cut_at : ℕ → Bytes → Option (Bytes × Bytes)
cut_at q [] = none
cut_at q (c ∷ cs) =
    let more = cut_at q cs in
    if c == q then some ([], cs) else elim more [ none ↦ none | some r ↦ some (c ∷ r.0, r.1) ]

-- Behind the inode: a comma, and the position.
unfoldable pub read_pos : ℕ → Bytes → Option (ℕ × ℕ)
read_pos inode [] = none
read_pos inode (c ∷ more) =
    if c == b','
    then (elim (read_number more) [ none ↦ none | some (pos, end) ↦ some (inode, pos) ])
    else none

-- The part of a line behind the path: the inode, a comma and the position.
unfoldable pub read_numbers : Bytes → Option (ℕ × ℕ)
read_numbers rest = elim (read_number rest) [
  | none ↦ none
  | some (inode, more) ↦ read_pos inode more
]

-- `substr` throws beyond the end of the text.
pub data StateError : Type 0 where
  bad_substr : StateError

-- Behind the path's second quote.
unfoldable pub read_behind : Bytes → Bytes → Outcome StateError (Option (Bytes × ℕ × ℕ))
read_behind path [] = err bad_substr
read_behind path (c ∷ rest) =
    ok (elim (read_numbers rest) [ none ↦ none | some r ↦ some (path, r.0, r.1) ])

-- A line of the state file: the path stands between its first character and the next quote. None for
-- a line that is skipped.
unfoldable pub read_line : Bytes → Outcome StateError (Option (Bytes × ℕ × ℕ))
read_line [] = ok none
read_line (c ∷ line) = elim (cut_at b'"' line) [
  | none ↦ ok none
  | some (path, behind) ↦ read_behind path behind
]

unfoldable pub with_state : Option (Bytes × ℕ × ℕ) → List (Bytes × ℕ × ℕ) → List (Bytes × ℕ × ℕ)
with_state none saved = saved
with_state (some s) saved = s ∷ saved

unfoldable pub read_state_lines : List Bytes → Outcome StateError (List (Bytes × ℕ × ℕ))
read_state_lines [] = ok []
read_state_lines (l ∷ ls) = do
  first ← read_line l
  rest ← read_state_lines ls
  ok (with_state first rest)

-- No file that can be opened is a clean start.
unfoldable pub get_state : Option Bytes → Outcome StateError (List (Bytes × ℕ × ℕ))
get_state none = ok []
get_state (some text) = read_state_lines (lines [] text)
