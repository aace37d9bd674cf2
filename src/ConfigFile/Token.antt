-- ===== src/ConfigFile/Token.antt =====
-- src/libs/config/position.hpp, position.cpp, token.hpp and token.cpp.
use ctguard.Base.{
  ℕ, ◌+◌, ◌%◌, ◌^◌, Bool, true, false, ◌&&◌, [], ◌∷◌, Bytes, ltb, ◌==◌, if◌then◌else◌,
}

-- Both numbers are `unsigned int`.
pub record Position : Type 0 where
  pub line_number : ℕ
  pub line_indent : ℕ

unfoldable pub line_break : Position → Position
line_break p = record { line_number = (p.line_number + 1) % 2 ^ 32; line_indent = 0 }

unfoldable pub char_advance : Position → Position
char_advance p = record p { line_indent = (p.line_indent + 1) % 2 ^ 32 }

-- `operator<`
unfoldable pub earlier : Position → Position → Bool
earlier p q =
    if p.line_number == q.line_number
    then ltb p.line_indent q.line_indent
    else ltb p.line_number q.line_number

pub data TokenType : Type 0 where
  eof string identifier integer unknown : TokenType

pub record Token : Type 0 where
  pub type : TokenType
  pub position : Position
  pub content : Bytes

-- `operator==(char)`: the first byte is the character and the next is 0, as it is at the end.
unfoldable pub is_char : ℕ → Bytes → Bool
is_char c [] = false
is_char c (d ∷ []) = d == c
is_char c (d ∷ e ∷ _) = d == c && e == 0

unfoldable pub is_name : TokenType → Bool
is_name string = true
is_name identifier = true
is_name _ = false

unfoldable pub is_value : TokenType → Bool
unfolding is_name
is_value integer = true
is_value ty = is_name ty
