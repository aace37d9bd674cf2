-- ===== src/ConfigFile/Parser/Total.antt =====
-- The fuel of the parser.
use ctguard.Base.{
  ℕ, zero, suc, ◌+◌, ◌≤◌, ◌<◌, ◌≡◌, ◌≢◌, refl, Bool, true, false, not, ◌&&◌, [], ◌∷◌, Bytes, codes,
  beq, ◌==◌, arith, Option-cases, inl, inr, lookup, Outcome, ok, err, ◌>>=◌, Post, Post-bind,
  Post-if, Post-check, Post-weaken, Post-Fails, Fails, Fails-bind, text_key, is_empty, length,
}
use ctguard.ConfigFile.Token.{Position, Token, TokenType, eof, is_char, is_name, is_value}
use ctguard.ConfigFile.Lexer.{Lexer, get, fresh_lexer}
use ctguard.ConfigFile.Lexer.Shrinks.{size, is_real, get-size, fresh_lexer-size}
use ctguard.ConfigFile.Group.{ConfigGroup, new_group, insert_group, has_keyword}
use ctguard.ConfigFile.Parser.{
  ParseError, keyword_defined, expected_equal, expected_value, too_deep, more_values, read_option,
  add_group, ParseGroup, read_entry, finish, read_group, parse_group, parse,
}

abbrev NotDeep : ParseError → Type 0
NotDeep too_deep = ⊥
NotDeep _ = Unit

-- A reading that ends with a lexer leaves at most the given size.
abbrev Leaves : {A : Type 0} → ℕ → Outcome ParseError (A × Lexer) → Type 0
Leaves bound = Post NotDeep (λ r. size r.1 ≤ bound)

value-real : (ty : TokenType) (content : Bytes) → is_value ty ≡ true → is_real ty content ≡ true
unfolding is_value is_name is_real
value-real eof content h = ground arith
value-real _ content h = refl

name-real : (ty : TokenType) (content : Bytes) → is_name ty ≡ true → is_real ty content ≡ true
unfolding is_name is_real
name-real eof content h = ground arith
name-real _ content h = refl

text-real :
    (ty : TokenType) (content : Bytes) → is_empty content ≡ false → is_real ty content ≡ true
unfolding is_real
text-real eof content h = ground arith
text-real _ content h = refl

-- What leaves less leaves no more than a higher bound.
less :
    {A : Type 0} (bound bound' : ℕ) (m : Outcome ParseError (A × Lexer))
    → bound ≤ bound'
    → Leaves bound m
    → Leaves bound' m
less bound bound' (ok r) h k = omega arith
less bound bound' (err e) h k = k

more_values-Leaves : (n line : ℕ) (l : Lexer) → size l < n → Leaves (size l) (more_values n line l)
unfolding more_values
more_values-Leaves zero line l h = omega (arith, h)
more_values-Leaves (suc n) line l h =
    let t : Token = (get l).0 in
    Post-if NotDeep _ (is_value t.type && t.position.line_number == line) _ _
      (λ y.
        let shorter = get-size l (value-real t.type t.content (ground arith)) in
        Post-bind NotDeep (λ r. size r.1 ≤ size l) _ _ _
          (less (size (get l).1) (size l) _ (omega arith)
            (more_values-Leaves n line (get l).1 (omega arith)))
          (λ r k. k))
      (λ _. omega arith)

read_option-Leaves :
    (n : ℕ) (name : Bytes) (start : Position) (cg : ConfigGroup) (l : Lexer)
    → size l < n
    → Leaves (size l) (read_option n name start cg l)
unfolding read_option
read_option-Leaves n name start (g, gs) l h =
    let t : Token = (get l).0 in
    Post-check NotDeep _ _ expected_value _ tt (λ y.
      let shorter = get-size l (value-real t.type t.content y) in
      Post-bind NotDeep (λ r. size r.1 ≤ size l) _ _ _
        (less (size (get l).1) (size l) _ (omega arith)
          (more_values-Leaves n t.position.line_number (get l).1 (omega arith)))
        (λ r k. k))

add_group-Fine : (sub cg : ConfigGroup) → Post NotDeep (λ c. Unit {0}) (add_group sub cg)
unfolding add_group
add_group-Fine sub (g, gs) = elim (Option-cases (insert_group sub gs)) [
  | inl e ↦ rw e tt
  | inr (gs', e) ↦ rw e tt
]

brace-real :
    (c : ℕ) (ty : TokenType) (content : Bytes)
    → is_char c content ≡ true
    → is_real ty content ≡ true
unfolding is_char is_empty
brace-real c ty [] h = ground arith
brace-real c ty (x ∷ xs) h = text-real ty (x ∷ xs) refl

equal-real :
    (ty : TokenType) (content : Bytes) → beq content (codes "=") ≡ true → is_real ty content ≡ true
unfolding beq is_empty
equal-real ty [] h = ground arith
equal-real ty (x ∷ xs) h = text-real ty (x ∷ xs) refl

-- A subgroup, once it is read, is added.
added-Leaves :
    (bound : ℕ) (cg : ConfigGroup) (m : Outcome ParseError (ConfigGroup × Lexer))
    → Leaves bound m
    → Leaves bound (do (sub, last) ← m; cg' ← add_group sub cg; ok (cg', last))
added-Leaves bound cg m h =
    Post-bind NotDeep (λ r. size r.1 ≤ bound) (λ r. size r.1 ≤ bound) m _ h
      (λ r k.
        Post-bind NotDeep (λ c. Unit {0}) (λ r. size r.1 ≤ bound) _ _ (add_group-Fine r.0 cg)
          (λ c u. k))

module _ (n : ℕ) (group : ParseGroup)
    (ends : (name keyword : Bytes) (pos : Position) (l : Lexer)
      → size l < n
      → Leaves (size l) (group name keyword pos l)) where
  read_entry-Leaves :
      (name : Bytes) (start : Position) (cg : ConfigGroup) (l : Lexer)
      → size l < n
      → Leaves (size l) (read_entry n group name start cg l)
  unfolding read_entry
  read_entry-Leaves name start (g, gs) l h =
      let t : Token = (get l).0 in
      let next : Lexer = (get l).1 in
      let brace : Token = (get next).0 in
      Post-if NotDeep _ (is_char b'{' t.content) _ _
        (λ y.
          let shorter = get-size l (brace-real b'{' t.type t.content y) in
          added-Leaves (size l) (g, gs) _
            (less (size next) (size l) _ (omega arith) (ends name [] start next (omega arith))))
        (λ _.
          Post-if NotDeep _ (is_name t.type) _ _
            (λ y.
              let shorter = get-size l (name-real t.type t.content y) in
              Post-if NotDeep _ (is_char b'{' brace.content) _ _
                (λ z.
                  let shorter' = get-size next (brace-real b'{' brace.type brace.content z) in
                  Post-check NotDeep _ (not (has_keyword t.content gs)) keyword_defined _ tt (λ u.
                    added-Leaves (size l) (g, gs) _
                      (less (size (get next).1) (size l) _ (omega arith)
                        (ends name t.content start (get next).1 (omega arith)))))
                (λ _.
                  Post-bind NotDeep (λ c. Unit {0}) (λ r. size r.1 ≤ size l) _ _
                    (add_group-Fine _ (g, gs)) (λ c u. omega arith)))
            (λ _. Post-check NotDeep _ (beq t.content (codes "=")) expected_equal _ tt (λ y.
              let shorter = get-size l (equal-real t.type t.content y) in
              less (size next) (size l) _ (omega arith)
                (read_option-Leaves n name start (g, gs) next (omega arith)))))

closed-Leaves :
    (bound : ℕ) (m : Outcome ParseError (ConfigGroup × Lexer))
    → Post NotDeep (λ r. true ≡ true → size r.1 ≤ bound) m
    → Leaves bound m
closed-Leaves bound (ok r) h = h refl
closed-Leaves bound (err e) h = h

finish-Leaves :
    (bound : ℕ) (need_close : Bool) (ty : TokenType) (r : ConfigGroup × Lexer)
    → Post NotDeep (λ r. need_close ≡ true → size r.1 ≤ bound) (finish need_close ty r)
unfolding finish
finish-Leaves bound true eof r = tt
finish-Leaves bound false eof r = λ e. ground arith
finish-Leaves bound _ _ r = tt

-- A group that is to be closed leaves no more than there was.
read_group-Leaves :
    (n : ℕ) (need_close : Bool) (cg : ConfigGroup) (l : Lexer)
    → size l < n
    → Post NotDeep (λ r. need_close ≡ true → size r.1 ≤ size l) (read_group n need_close cg l)
unfolding read_group
read_group-Leaves zero need_close cg l h = omega (arith, h)
read_group-Leaves (suc n) need_close (g, gs) l h =
    let t : Token = (get l).0 in
    let next : Lexer = (get l).1 in
    Post-if NotDeep _ (is_name t.type) _ _
      (λ y.
        let shorter = get-size l (name-real t.type t.content y) in
        elim (Option-cases (lookup t.content g.options)) [
          | inr (co, e) ↦ rw e tt
          | inl e ↦ rw e (
              Post-bind NotDeep (λ r. size r.1 ≤ size next)
                (λ r. need_close ≡ true → size r.1 ≤ size l) _ _
                (read_entry-Leaves n _
                  (λ name keyword pos m k.
                    closed-Leaves _ _ (read_group-Leaves n true (new_group name keyword pos) m k))
                  t.content l.prev_position (g, gs) next (omega arith))
                (λ r k.
                  Post-weaken NotDeep _ (λ q. need_close ≡ true → size q.1 ≤ size r.1) _
                    (λ q e c. omega (arith, e c))
                    (read_group-Leaves n need_close r.0 r.1 (omega arith))))
        ])
      (λ _.
        Post-if NotDeep _ (need_close && is_char b'}' t.content) _ _
          (λ y c.
            let shorter = get-size l (brace-real b'}' t.type t.content (ground arith)) in
            omega arith)
          (λ _. finish-Leaves (size l) need_close t.type ((g, gs), next)))

not_deep : (m : Outcome ParseError ConfigGroup) → Fails NotDeep m → m ≢ err too_deep
not_deep m h e = rw e at h

-- Whatever the input is, parse reads it to its end or to an exception of the source: its fuel, two
-- more than the number of bytes, is always enough.
pub parse_total : (input : Bytes) → parse input ≢ err too_deep
unfolding parse parse_group
parse_total input =
    let start : Position = record { line_number = 1; line_indent = 0 } in
    let group : Outcome ParseError (ConfigGroup × Lexer) =
      read_group (length input + 2) false (new_group (codes "global") [] start)
        (fresh_lexer input) in
    not_deep _ (
      Fails-bind NotDeep group (λ r. ok r.0)
        (Post-Fails NotDeep (λ r. false ≡ true → size r.1 ≤ size (fresh_lexer input)) group
          (read_group-Leaves (length input + 2) false _ (fresh_lexer input)
            (omega (arith, fresh_lexer-size input))))
        (λ r u. tt))
