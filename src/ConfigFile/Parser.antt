-- ===== src/ConfigFile/Parser.antt =====
-- src/libs/config/parser.hpp and parser.cpp. A `parse_exception` is an error of its kind.
pub mod Total
pub mod Valued
use ctguard.Base.{
  ℕ, zero, suc, ◌+◌, Bool, true, false, not, ◌&&◌, List, [], ◌∷◌, Option, none, some, Bytes, codes,
  beq, ◌==◌, if◌then◌else◌, length, text_key, lookup, emplace, contains, Outcome, ok, err, ◌>>=◌,
  ◌>>◌, guard, or_err,
}
use ctguard.ConfigFile.Token.{Position, Token, TokenType, eof, is_char, is_name, is_value}
use ctguard.ConfigFile.Lexer.{Lexer, get, fresh_lexer}
use ctguard.ConfigFile.Group.{
  ConfigOption, GroupInfo, ConfigGroup, Groups, new_group, insert_group, has_keyword,
}

-- `too_deep` is no exception of the source: it is the end of the fuel.
pub data ParseError : Type 0 where
  key_defined cannot_insert keyword_defined expected_equal expected_value not_closed unknown_token
        too_deep :
      ParseError

-- The values that follow on the line of the first one.
unfoldable pub more_values : ℕ → ℕ → Lexer → Outcome ParseError (List Bytes × Lexer)
unfolding is_value
more_values zero line l = err too_deep
more_values (suc n) line l =
    let (t, next) = get l in
    let rest = more_values n line next in
    if is_value t.type && t.position.line_number == line
    then (do (vs, last) ← rest; ok (t.content ∷ vs, last))
    else ok ([], l)

-- Behind `name =`.
unfoldable pub read_option :
    ℕ → Bytes → Position → ConfigGroup → Lexer → Outcome ParseError (ConfigGroup × Lexer)
unfolding more_values is_value emplace
read_option n name start (g, gs) l = do
  let (t, next) = get l
  guard (is_value t.type) expected_value
  (vs, last) ← more_values n t.position.line_number next
  let co : ConfigOption = record { key = name; options = t.content ∷ vs; pos = start }
  ok ((record g { options = emplace name co g.options }, gs), last)

unfoldable pub add_group : ConfigGroup → ConfigGroup → Outcome ParseError ConfigGroup
unfolding insert_group
add_group sub (g, gs) = do gs' ← or_err (insert_group sub gs) cannot_insert; ok (g, gs')

-- What stands behind a name. `parse_group` reads a subgroup of a name, a keyword and a position,
-- up to its `}`.
abbrev pub ParseGroup : Type 0
ParseGroup = Bytes → Bytes → Position → Lexer → Outcome ParseError (ConfigGroup × Lexer)

unfoldable pub read_entry :
    ℕ
    → ParseGroup
    → Bytes
    → Position
    → ConfigGroup
    → Lexer
    → Outcome ParseError (ConfigGroup × Lexer)
unfolding read_option add_group new_group has_keyword is_char is_name
read_entry n parse_group name start (g, gs) l =
    let (t, next) = get l in
    let (brace, inside) = get next in
    if is_char b'{' t.content
    then (do
      (sub, last) ← parse_group name [] start next
      cg ← add_group sub (g, gs)
      ok (cg, last))
    else if is_name t.type
    then (if is_char b'{' brace.content
        then (do
          guard (not (has_keyword t.content gs)) keyword_defined
          (sub, last) ← parse_group name t.content start inside
          cg ← add_group sub (g, gs)
          ok (cg, last))
        else (do cg ← add_group (new_group name t.content start) (g, gs); ok (cg, next)))
    else (do
      guard (beq t.content (codes "=")) expected_equal
      read_option n name start (g, gs) next)

-- At a token that is neither a name nor a closing brace.
unfoldable pub finish :
    Bool → TokenType → ConfigGroup × Lexer → Outcome ParseError (ConfigGroup × Lexer)
finish true eof r = err not_closed
finish false eof r = ok r
finish need_close _ r = err unknown_token

-- The loop of `parse_group`, with the group so far.
unfoldable pub read_group :
    ℕ → Bool → ConfigGroup → Lexer → Outcome ParseError (ConfigGroup × Lexer)
unfolding read_entry new_group finish lookup is_char is_name
read_group zero need_close cg l = err too_deep
read_group (suc n) need_close (g, gs) l =
    let (t, next) = get l in
    if is_name t.type
    then (elim (lookup t.content g.options) [
      | some co ↦ err key_defined
      | none ↦ do
        (cg, last) ←
            read_entry n (λ name keyword pos. read_group n true (new_group name keyword pos))
              t.content l.prev_position (g, gs) next
        read_group n need_close cg last
    ])
    else if need_close && is_char b'}' t.content
    then ok ((g, gs), next)
    else finish need_close t.type ((g, gs), next)

unfoldable pub parse_group :
    ℕ → Bytes → Bytes → Bool → Position → Lexer → Outcome ParseError (ConfigGroup × Lexer)
unfolding read_group new_group
parse_group n name keyword need_close pos = read_group n need_close (new_group name keyword pos)

-- The whole input. There are not more tokens than characters.
unfoldable pub parse : Bytes → Outcome ParseError ConfigGroup
unfolding parse_group fresh_lexer
parse input = do
  let start : Position = record { line_number = 1; line_indent = 0 }
  (cg, l) ← parse_group (length input + 2) (codes "global") [] false start (fresh_lexer input)
  ok cg
