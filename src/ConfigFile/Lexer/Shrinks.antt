-- ===== src/ConfigFile/Lexer/Shrinks.antt =====
-- How much of the input a token takes.
use ctguard.Base.{
  ℕ, suc, ◌≤◌, ◌<◌, ◌≡◌, refl, Bool, true, false, [], ◌∷◌, none, inl, inr, arith, ◌==◌,
  if◌then◌else◌, length, not, is_empty, Bytes, isspace, isalpha, isdigit, Option-cases,
}
use ctguard.ConfigFile.Token.{Position, TokenType, eof}
use ctguard.ConfigFile.Lexer.{
  Cursor, Lexer, end_of_file, moved, mygetchar, ends_comment, passes, skip, quoted, span,
  in_identifier, read_token, gettok, get, fresh_lexer,
}

-- The characters that are left, the one at the cursor included.
unfoldable pub left : Cursor → ℕ
left k = if k.last_char == end_of_file then 0 else suc (length k.input)

-- Whether it is a token, and not the end of the file.
unfoldable pub is_real : TokenType → Bytes → Bool
is_real eof content = not (is_empty content)
is_real _ content = true

-- The characters that are left, and the token that was read ahead.
unfoldable pub ahead : TokenType → Bytes → Cursor → ℕ
unfolding left is_real
ahead ty content k = if is_real ty content then suc (left k) else 0

unfoldable pub size : Lexer → ℕ
unfolding ahead
size l = ahead l.next_token.type l.next_token.content l.cursor

mygetchar-left : (cs : Bytes) (p : Position) → left (mygetchar cs p) ≤ length cs
unfolding mygetchar left
mygetchar-left [] p = omega arith
mygetchar-left (c ∷ cs) p = ground arith

passes-end : (comment : Bool) → passes comment end_of_file ≡ none
unfolding passes ends_comment isspace
passes-end true = refl
passes-end false = refl

skip-left :
    (comment : Bool) (c : ℕ) (cs : Bytes) (p : Position)
    → left (skip comment c cs p) ≤ left (record { last_char = c; input = cs; position = p })
unfolding skip left mygetchar
skip-left comment c [] p = elim (Option-cases (passes comment c)) [
  | inl e ↦ rw (e, skip) (omega arith)
  | inr (m, e) ↦ rw (e, skip) (omega arith)
]
skip-left comment c (d ∷ ds) p = elim (Option-cases (passes comment c)) [
  | inl e ↦ rw (e, skip) (omega arith)
  | inr (m, e) ↦ rw (e, skip) (ground (arith, passes-end comment, skip-left m d ds (moved d p)))
]

quoted-left : (q : ℕ) (cs : Bytes) (p : Position) → left ((quoted q cs p).2) ≤ length cs
unfolding quoted left mygetchar
quoted-left q [] p = omega arith
quoted-left q (d ∷ ds) p =
    ground (arith, quoted-left q ds (moved d p), mygetchar-left ds (moved d p))

span-left : (class : ℕ → Bool) (cs : Bytes) (p : Position) → left ((span class cs p).1) ≤ length cs
unfolding span left mygetchar
span-left class [] p = omega arith
span-left class (d ∷ ds) p = ground (arith, span-left class ds (moved d p))

isalpha-end : (c : ℕ) → isalpha c ≡ true → c < end_of_file
unfolding isalpha
isalpha-end c h = ground arith

isdigit-end : (c : ℕ) → isdigit c ≡ true → c < end_of_file
unfolding isdigit
isdigit-end c h = ground arith

read_token-ahead : (k : Cursor) → ahead (read_token k).0 (read_token k).1 (read_token k).2 ≤ left k
unfolding read_token ahead left is_real is_empty
read_token-ahead k = ground (
  arith,
  isalpha-end k.last_char,
  isdigit-end k.last_char,
  span-left in_identifier k.input k.position,
  span-left isdigit k.input k.position,
  quoted-left k.last_char k.input k.position,
  mygetchar-left k.input k.position,
)

pub gettok-ahead : (k : Cursor) → ahead (gettok k).0.type (gettok k).0.content (gettok k).1 ≤ left k
unfolding gettok left ahead
gettok-ahead k = omega (
  arith,
  skip-left false k.last_char k.input k.position,
  read_token-ahead (skip false k.last_char k.input k.position),
)

pub get-size :
    (l : Lexer) → is_real (get l).0.type (get l).0.content ≡ true → size (get l).1 < size l
unfolding get size ahead
get-size l h = ground (arith, gettok-ahead l.cursor)

pub fresh_lexer-size : (input : Bytes) → size (fresh_lexer input) ≤ suc (length input)
unfolding fresh_lexer get size
fresh_lexer-size input = omega (
  arith,
  gettok-ahead (record {
    last_char = b' ';
    input = input;
    position = record { line_number = 1; line_indent = 0 };
  }),
)
