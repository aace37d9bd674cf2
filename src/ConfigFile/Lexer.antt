-- ===== src/ConfigFile/Lexer.antt =====
-- src/libs/config/lexer.hpp and lexer.cpp. A `char` is signed, as on x86: `EOF` as a `char` is the
-- byte 255, which is of no class of characters.
pub mod Shrinks
pub mod Quoted
use ctguard.Base.{
  ℕ, Bool, true, false, not, ◌&&◌, ◌||◌, List, [], ◌∷◌, Option, none, some, Bytes, isspace, isalpha,
  isalnum, isdigit, ◌==◌, if◌then◌else◌,
}
use ctguard.ConfigFile.Token.{
  Position, line_break, char_advance, Token, TokenType, eof, string, identifier, integer, unknown,
}

abbrev pub end_of_file : ℕ
end_of_file = 255

-- `m_input`, `m_position` and `m_last_char`.
pub record Cursor : Type 0 where
  pub last_char : ℕ
  pub input : Bytes
  pub position : Position

-- The position behind a character.
unfoldable pub moved : ℕ → Position → Position
unfolding line_break char_advance
moved c p = if c == b'\n' then line_break p else if c == b'\r' then p else char_advance p

-- `m_last_char = mygetchar()`
unfoldable pub mygetchar : Bytes → Position → Cursor
unfolding moved
mygetchar [] p = record { last_char = end_of_file; input = []; position = moved end_of_file p }
mygetchar (c ∷ cs) p = record { last_char = c; input = cs; position = moved c p }

-- Where a comment ends.
unfoldable pub ends_comment : ℕ → Bool
ends_comment c = c == end_of_file || c == b'\n' || c == b'\r'

-- Whether the character is passed over, in a comment or outside of one, and whether the next one
-- stands in a comment.
unfoldable pub passes : Bool → ℕ → Option Bool
unfolding ends_comment
passes comment c =
    if comment && not (ends_comment c)
    then some true
    else if isspace c
    then some false
    else if c == b'#'
    then some true
    else none

-- White space and comments.
unfoldable pub skip : Bool → ℕ → Bytes → Position → Cursor
unfolding passes mygetchar
skip comment c [] p = elim (passes comment c) [
  | none ↦ record { last_char = c; input = []; position = p }
  | some m ↦ mygetchar [] p
]
skip comment c (d ∷ ds) p = elim (passes comment c) [
  | none ↦ record { last_char = c; input = d ∷ ds; position = p }
  | some m ↦ skip m d ds (moved d p)
]

-- The characters behind the first quote up to the next one, and whether there is one.
unfoldable pub quoted : ℕ → Bytes → Position → Bool × Bytes × Cursor
unfolding mygetchar
quoted q [] p = (false, [], mygetchar [] p)
quoted q (d ∷ ds) p =
    let (closed, content, k) = quoted q ds (moved d p) in
    if d == end_of_file
    then (false, [], mygetchar (d ∷ ds) p)
    else if d == q
    then (true, [], mygetchar ds (moved d p))
    else (closed, d ∷ content, k)

-- The characters of a class up to the first other one.
unfoldable pub span : (ℕ → Bool) → Bytes → Position → Bytes × Cursor
unfolding mygetchar
span class [] p = ([], mygetchar [] p)
span class (d ∷ ds) p =
    let (content, k) = span class ds (moved d p) in
    if class d then (d ∷ content, k) else ([], mygetchar (d ∷ ds) p)

unfoldable pub in_identifier : ℕ → Bool
in_identifier c = isalnum c || c == b'_' || c == b'.'

-- The type and the content of the token at the cursor.
unfoldable pub read_token : Cursor → TokenType × Bytes × Cursor
unfolding quoted span in_identifier mygetchar
read_token k =
    let c = k.last_char in
    if c == b'"' || c == b'\''
    then (let (closed, content, next) = quoted c k.input k.position in
        (if closed then string else unknown, content, next))
    else if isalpha c
    then (let (content, next) = span in_identifier k.input k.position in
        (identifier, c ∷ content, next))
    else if isdigit c
    then (let (content, next) = span isdigit k.input k.position in (integer, c ∷ content, next))
    else if c == end_of_file
    then (eof, [], k)
    else (unknown, c ∷ [], mygetchar k.input k.position)

unfoldable pub gettok : Cursor → Token × Cursor
unfolding skip read_token
gettok k =
    let start = skip false k.last_char k.input k.position in
    let (ty, content, next) = read_token start in
    (record { type = ty; position = start.position; content = content }, next)

pub record Lexer : Type 0 where
  pub cursor : Cursor
  pub prev_position : Position
  pub next_token : Token

-- The token that was read ahead, and the lexer with the next one; `m_prev_position` is where that
-- one starts.
unfoldable pub get : Lexer → Token × Lexer
unfolding gettok
get l =
    let (t, k) = gettok l.cursor in
    (l.next_token, record { cursor = k; prev_position = t.position; next_token = t })

-- The constructor, which reads the first token.
unfoldable pub fresh_lexer : Bytes → Lexer
unfolding get
fresh_lexer input =
    let start : Position = record { line_number = 1; line_indent = 0 } in
    (get (record {
      cursor = record { last_char = b' '; input = input; position = start };
      prev_position = record { line_number = 0; line_indent = 0 };
      next_token = record { type = unknown; position = start; content = b' ' ∷ [] };
    })).1
