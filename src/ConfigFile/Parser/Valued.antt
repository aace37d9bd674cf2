-- ===== src/ConfigFile/Parser/Valued.antt =====
-- The values of the options that the parser accepts.
use ctguard.Base.{
  ℕ, zero, suc, ◌≡◌, ◌≢◌, Bool, true, false, not, ◌&&◌, List, [], ◌∷◌, Bytes, beq, arith, if-both,
  before, IfSome, IfSome-at, Option-cases, inl, inr, lookup, assign, emplace, text_key, Outcome, ok,
  err, ◌>>=◌, Post, Post-bind, Post-guard, Post-eq-ok, Whatever, All, codes, length, ◌+◌,
}
use ctguard.ConfigFile.Token.{Position, Token, eof, is_char, is_name, TokenType, is_value}
use ctguard.ConfigFile.Lexer.{Lexer, get, fresh_lexer}
use ctguard.ConfigFile.Group.{
  ConfigOption, GroupInfo, ConfigGroup, Groups, nil, cons, new_group, insert_group, has_keyword,
}
use ctguard.ConfigFile.Token.{earlier}
use ctguard.ConfigFile.Parser.{
  ParseError, ParseGroup, expected_value, keyword_defined, expected_equal, more_values, read_option,
  add_group, read_entry, finish, read_group, parse_group, parse,
}

abbrev pub Filled : List (Bytes × ConfigOption) → Type 0
Filled = All (λ o. o.1.options ≢ [])

-- Each option of the groups, and of all groups below them, has a value.
abbrev pub Valued : Groups → Type 0
Valued nil = Unit
Valued (cons g gs rest) = Filled g.options × Valued gs × Valued rest

abbrev pub IsValued : ConfigGroup → Type 0
IsValued cg = Filled cg.0.options × Valued cg.1

assign-Filled :
    (k : Bytes) (o : ConfigOption) (os : List (Bytes × ConfigOption))
    → o.options ≢ []
    → Filled os
    → Filled (assign k o os)
unfolding assign
assign-Filled k o [] h f = (h, tt)
assign-Filled k o ((j, p) ∷ os) h f =
    if-both Filled (beq j k) _ _ (h, f.1)
      (if-both Filled (before k j) _ _ (h, f) (f.0, assign-Filled k o os h f.1))

emplace-Filled :
    (k : Bytes) (o : ConfigOption) (os : List (Bytes × ConfigOption))
    → o.options ≢ []
    → Filled os
    → Filled (emplace k o os)
unfolding emplace
emplace-Filled k o os h f = elim (Option-cases (lookup k os)) [
  | inl e ↦ rw (e, emplace) (assign-Filled k o os h f)
  | inr (p, e) ↦ rw (e, emplace) f
]

insert_group-Valued :
    (cg : ConfigGroup) (gs : Groups) → IsValued cg → Valued gs → IfSome Valued (insert_group cg gs)
unfolding insert_group
insert_group-Valued (g, hs) nil v w = (v.0, v.1, tt)
insert_group-Valued (g, hs) (cons j js rest) v w =
    let Good = IfSome Valued in
    if-both Good (earlier g.pos j.pos) _ _ (v.0, v.1, w)
      (if-both Good (earlier j.pos g.pos) _ _
        (elim (Option-cases (insert_group (g, hs) rest)) [
          | inl e ↦ rw e tt
          | inr (r, e) ↦ rw e (
            w.0,
            w.1,
            IfSome-at Valued (insert_group (g, hs) rest) r (insert_group-Valued (g, hs) rest v w.2)
                e,
          )
        ])
        tt)

-- A reading that ends with a group ends with one that is valued.
abbrev Yields : {A : Type 0} → Outcome ParseError (ConfigGroup × A) → Type 0
Yields = Post Whatever (λ r. IsValued r.0)

-- The option is there once its values are read, the first of which is known.
stored-Yields :
    (name first : Bytes) (start : Position) (g : GroupInfo) (gs : Groups)
    (m : Outcome ParseError (List Bytes × Lexer))
    → IsValued (g, gs)
    → Yields (do
      (vs, last) ← m
      let co : ConfigOption = record { key = name; options = first ∷ vs; pos = start }
      ok ((record g { options = emplace name co g.options }, gs), last))
stored-Yields name first start g gs (ok r) v =
    (emplace-Filled name _ g.options (λ e. ground arith) v.0, v.1)
stored-Yields name first start g gs (err e) v = tt

read_option-Yields :
    (n : ℕ) (name : Bytes) (start : Position) (cg : ConfigGroup) (l : Lexer)
    → IsValued cg
    → Yields (read_option n name start cg l)
unfolding read_option
read_option-Yields n name start (g, gs) l v =
    Post-guard _ (is_value (get l).0.type) expected_value _ (λ y.
      stored-Yields name (get l).0.content start g gs
        (more_values n (get l).0.position.line_number (get l).1) v)

add_group-IsValued :
    (sub cg : ConfigGroup) → IsValued sub → IsValued cg → Post Whatever IsValued (add_group sub cg)
unfolding add_group
add_group-IsValued sub (g, gs) u v = elim (Option-cases (insert_group sub gs)) [
  | inl e ↦ rw e tt
  | inr (r, e) ↦
      rw e (v.0, IfSome-at Valued (insert_group sub gs) r (insert_group-Valued sub gs u v.1) e)
]

added-Yields :
    (cg : ConfigGroup) (m : Outcome ParseError (ConfigGroup × Lexer))
    → IsValued cg
    → Yields m
    → Yields (do (sub, last) ← m; cg' ← add_group sub cg; ok (cg', last))
added-Yields cg m v h =
    Post-bind Whatever (λ r. IsValued r.0) (λ r. IsValued r.0) m _ h
      (λ r k.
        Post-bind Whatever IsValued (λ r. IsValued r.0) _ _ (add_group-IsValued r.0 cg k v)
          (λ c u. u))

read_entry-Yields :
    (n : ℕ) (group : ParseGroup)
    → ((name keyword : Bytes) (pos : Position) (l : Lexer) → Yields (group name keyword pos l))
    → (name : Bytes) (start : Position) (cg : ConfigGroup) (l : Lexer) → IsValued cg
    → Yields (read_entry n group name start cg l)
unfolding read_entry new_group
read_entry-Yields n group yields name start (g, gs) l v =
    let t : Token = (get l).0 in
    let next : Lexer = (get l).1 in
    let brace : Token = (get next).0 in
    if-both Yields (is_char b'{' t.content) _ _
      (added-Yields (g, gs) _ v (yields name [] start next))
      (if-both Yields (is_name t.type) _ _
        (if-both Yields (is_char b'{' brace.content) _ _
          (Post-guard _ (not (has_keyword t.content gs)) keyword_defined _
            (λ y. added-Yields (g, gs) _ v (yields name t.content start (get next).1)))
          (Post-bind Whatever IsValued (λ r. IsValued r.0) _ _
            (add_group-IsValued (new_group name t.content start) (g, gs) (tt, tt) v) (λ c u. u)))
        (Post-guard _ (beq t.content (codes "=")) expected_equal _
          (λ y. read_option-Yields n name start (g, gs) next v)))

finish-Yields :
    (need_close : Bool) (ty : TokenType) (r : ConfigGroup × Lexer)
    → IsValued r.0
    → Yields (finish need_close ty r)
unfolding finish
finish-Yields true eof r v = tt
finish-Yields false eof r v = v
finish-Yields _ _ r v = tt

read_group-Yields :
    (n : ℕ) (need_close : Bool) (cg : ConfigGroup) (l : Lexer)
    → IsValued cg
    → Yields (read_group n need_close cg l)
unfolding read_group new_group finish
read_group-Yields zero need_close cg l v = tt
read_group-Yields (suc n) need_close (g, gs) l v =
    let t : Token = (get l).0 in
    let next : Lexer = (get l).1 in
    if-both Yields (is_name t.type) _ _
      (elim (Option-cases (lookup t.content g.options)) [
        | inr (co, e) ↦ rw e tt
        | inl e ↦ rw e (
            Post-bind Whatever (λ r. IsValued r.0) (λ r. IsValued r.0) _ _
              (read_entry-Yields n _
                (λ name keyword pos m.
                  read_group-Yields n true (new_group name keyword pos) m (tt, tt))
                t.content l.prev_position (g, gs) next v)
              (λ r k. read_group-Yields n need_close r.0 r.1 k))
      ])
      (if-both Yields (need_close && is_char b'}' t.content) _ _ v
        (finish-Yields need_close t.type ((g, gs), next) v))

-- Each option that parse accepts, in any group, has a value.
pub parse-IsValued : (input : Bytes) (cg : ConfigGroup) → parse input ≡ ok cg → IsValued cg
unfolding parse parse_group new_group
parse-IsValued input cg e =
    let start : Position = record { line_number = 1; line_indent = 0 } in
    let group : Outcome ParseError (ConfigGroup × Lexer) =
      read_group (length input + 2) false (new_group (codes "global") [] start)
        (fresh_lexer input) in
    Post-eq-ok IsValued (parse input)
      (Post-bind Whatever (λ r. IsValued r.0) IsValued group (λ r. ok r.0)
        (read_group-Yields (length input + 2) false _ (fresh_lexer input) (tt, tt)) (λ r k. k))
      e
