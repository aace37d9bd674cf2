-- ===== src/Logscan/Logfile/Reading.antt =====
-- What one reading of a stream takes from it.
use ctguard.Base.{
  ℕ, suc, ◌≡◌, ◌≢◌, refl, sym, ◌∙◌, ap, Bool, true, false, not, [], ◌∷◌, ◌++◌, append-nil,
  append_assoc, Option, some, Bytes, ◌==◌, ==_iff, is_empty, length, length-append, All, All-append,
  arith, Bool-cases, inl, inr,
}
use ctguard.Logscan.Lines.{lines}
use ctguard.Logscan.Logfile.{read_lines, seek}

-- Whether a text ends with a newline, or is empty behind a whole line.
unfoldable pub is_closed : Bool → Bytes → Bool
is_closed begun [] = not begun
is_closed begun (c ∷ cs) = is_closed (not (c == b'\n')) cs

abbrev pub IsBlank : Bytes → Type 0
IsBlank = All (λ c. c ≡ b'\n')

pub read_lines-lines :
    (last : Option ℕ) (p : ℕ) (line text : Bytes)
    → (read_lines last p line text).0 ≡ lines line text
unfolding read_lines lines
read_lines-lines last p line [] = ground arith
read_lines-lines last p line (c ∷ cs) = ground (
  arith,
  read_lines-lines last (suc p) [] cs,
  read_lines-lines (some (suc p)) (suc p) [] cs,
  read_lines-lines last (suc p) (line ++ (c ∷ [])) cs,
)

pub snoc_nonempty : (line : Bytes) (c : ℕ) → is_empty (line ++ (c ∷ [])) ≡ false
unfolding is_empty
snoc_nonempty [] c = refl
snoc_nonempty (x ∷ line) c = refl

pub lines-append :
    (line a b : Bytes)
    → is_closed (not (is_empty line)) a ≡ true
    → lines line (a ++ b) ≡ lines line a ++ lines [] b
unfolding lines is_closed is_empty
lines-append [] [] b h = refl
lines-append (x ∷ line) [] b h = absurd cc
lines-append line (c ∷ a) b h =
    ground (arith, lines-append [] a b, lines-append (line ++ (c ∷ [])) a b, snoc_nonempty line c)

pub lines-blank : (a b : Bytes) → IsBlank a → lines [] (a ++ b) ≡ lines [] b
unfolding lines is_empty
lines-blank [] b h = refl
lines-blank (c ∷ a) b h = rw h.0 (lines-blank a b h.1)

pub seek-append : (a b : Bytes) → seek (length a) (a ++ b) ≡ b
unfolding seek
seek-append [] b = refl
seek-append (c ∷ a) b = seek-append a b

-- The position stands in front of nothing but newlines.
abbrev pub Settled : Option ℕ → Bytes → Type 0
Settled at text = (a : Bytes) × (b : Bytes) × (text ≡ a ++ b) × (at ≡ some (length a)) × IsBlank b

length-snoc : (a : Bytes) (c : ℕ) → length (a ++ (c ∷ [])) ≡ suc (length a)
length-snoc a c = omega (arith, length-append a (c ∷ []))

Settled-newline :
    (at : Option ℕ) (text : Bytes) → Settled at text → Settled at (text ++ (b'\n' ∷ []))
Settled-newline at text (a, b, e, f, h) = (
  a,
  b ++ (b'\n' ∷ []),
  ap (λ t. t ++ (b'\n' ∷ [])) e ∙ append_assoc a b (b'\n' ∷ []),
  f,
  All-append _ b (b'\n' ∷ []) h (refl, tt),
)

no_empty : (line : Bytes) (c : ℕ) → is_empty (line ++ (c ∷ [])) ≢ true
unfolding is_empty
no_empty [] c e = absurd cc
no_empty (x ∷ line) c e = absurd cc

further :
    (last : Option ℕ) (line before cs : Bytes) (c : ℕ)
    → Settled
        ((read_lines last (length (before ++ (c ∷ []))) line cs).1)
        ((before ++ (c ∷ [])) ++ cs)
    → Settled ((read_lines last (suc (length before)) line cs).1) (before ++ (c ∷ cs))
further last line before cs c h = rw (length-snoc before c, append_assoc before (c ∷ []) cs) at h

-- A reading of whole lines, that starts in front of newlines, ends in front of newlines.
pub read_lines-Settled :
    (last : Option ℕ) (line before text : Bytes)
    → is_closed (not (is_empty line)) text ≡ true
    → (is_empty line ≡ true → Settled last before)
    → Settled ((read_lines last (length before) line text).1) (before ++ text)
unfolding read_lines is_closed
read_lines-Settled last line before [] h s =
    let e : is_empty line ≡ true = ground arith in rw (e, append-nil before) (s e)
read_lines-Settled last line before (c ∷ cs) h s = elim (Bool-cases (c == b'\n')) [
  | inl y ↦ elim (Bool-cases (is_empty line)) [
    | inl e ↦
        rw (y, e)
          (further last [] before cs c (
            read_lines-Settled last [] (before ++ (c ∷ [])) cs (rw y at h)
              (λ u. rw ((==_iff c b'\n').0 y) (Settled-newline last before (s e)))))
    | inr e ↦
        rw (y, e)
          (further (some (suc (length before))) [] before cs c (
            read_lines-Settled (some (suc (length before))) [] (before ++ (c ∷ [])) cs (rw y at h)
              (λ u. (
                before ++ (c ∷ []),
                [],
                sym (append-nil _),
                ap some (sym (length-snoc before c)),
                tt,
              ))))
  ]
  | inr n ↦ rw n (
      further last (line ++ (c ∷ [])) before cs c (
        read_lines-Settled last (line ++ (c ∷ [])) (before ++ (c ∷ [])) cs
          (rw (snoc_nonempty line c) (rw n at h)) (λ u. absurd (no_empty line c u))))
]
