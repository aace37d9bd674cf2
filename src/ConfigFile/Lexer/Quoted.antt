-- ===== src/ConfigFile/Lexer/Quoted.antt =====
-- A text in quotes.
use ctguard.Base.{
  ℕ, ◌≡◌, ◌≢◌, refl, Bool, true, false, [], ◌∷◌, ◌++◌, none, Bytes, ◌==◌, ◌||◌, arith, All, isspace,
}
use ctguard.ConfigFile.Token.{Position, string}
use ctguard.ConfigFile.Lexer.{
  end_of_file, moved, mygetchar, ends_comment, passes, skip, quoted, gettok,
}

-- The position behind a text.
unfoldable pub moved_over : Bytes → Position → Position
moved_over [] p = p
moved_over (c ∷ cs) p = moved_over cs (moved c p)

-- Characters that can stand between two quotes.
abbrev pub Inside : ℕ → ℕ → Type 0
Inside q c = (c ≢ q) × (c ≢ end_of_file)

abbrev pub is_quote : ℕ → Bool
is_quote c = c == b'"' || c == b'\''

quoted-text :
    (q : ℕ) (text rest : Bytes) (p : Position)
    → q ≢ end_of_file
    → All (Inside q) text
    → quoted q (text ++ (q ∷ rest)) p ≡ (true, text, mygetchar rest (moved q (moved_over text p)))
unfolding quoted moved_over
quoted-text q [] rest p f h = ground arith
quoted-text q (c ∷ cs) rest p f h = ground (arith, quoted-text q cs rest (moved c p) f h.1)

quote-passes : (q : ℕ) → is_quote q ≡ true → (passes false q ≡ none) × (q ≢ end_of_file)
unfolding passes ends_comment isspace
quote-passes q h = ground arith

skip-none :
    (c : ℕ) (cs : Bytes) (p : Position)
    → passes false c ≡ none
    → skip false c cs p ≡ record { last_char = c; input = cs; position = p }
unfolding skip
skip-none c [] p e = rw (e, skip) refl
skip-none c (d ∷ ds) p e = rw (e, skip) refl

-- A text in quotes, whatever it holds but that quote and the byte 255, is one token with the text as
-- its content, and the lexer goes on behind it.
gettok-quoted :
    (q : ℕ) (text rest : Bytes) (p : Position)
    → is_quote q ≡ true
    → All (Inside q) text
    → gettok (record { last_char = q; input = text ++ (q ∷ rest); position = p }) ≡ (
      record { type = string; position = p; content = text },
      mygetchar rest (moved q (moved_over text p)),
    )
unfolding gettok
gettok-quoted q text rest p h k =
    let e = skip-none q (text ++ (q ∷ rest)) p (quote-passes q h).0 in
    let f = quoted-text q text rest p (quote-passes q h).1 k in rw (e, f, h, gettok) refl
