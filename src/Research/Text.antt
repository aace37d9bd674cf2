-- ===== src/Research/Text.antt =====
pub mod Pieces
-- `trim` of src/research/rule.cpp, and the loops there that cut a value at its commas.
use ctguard.Base.{
  ℕ, List, [], ◌∷◌, Option, none, some, Bytes, isspace, ◌==◌, if◌then◌else◌, reverse,
}

-- The first loop of `trim`: it goes on while there is a later character.
unfoldable pub trim_front : Bytes → Bytes
trim_front [] = []
trim_front (c ∷ []) = c ∷ []
trim_front (c ∷ d ∷ cs) = if isspace c then trim_front (d ∷ cs) else c ∷ d ∷ cs

-- `trim`. At an empty text `end` is the largest `size_type`, and `str[end]` is read: undefined.
unfoldable pub trim : Bytes → Option Bytes
unfolding trim_front
trim [] = none
trim (c ∷ cs) = some (reverse (trim_front (reverse (trim_front (c ∷ cs)))))

abbrev grow : ℕ → List Bytes → List Bytes
grow c [] = (c ∷ []) ∷ []
grow c (p ∷ ps) = (c ∷ p) ∷ ps

-- The pieces between the delimiters, as the loops over `find` and `substr` push them.
unfoldable pub split : ℕ → Bytes → List Bytes
split delim [] = [] ∷ []
split delim (c ∷ cs) = let rest = split delim cs in if c == delim then [] ∷ rest else grow c rest

-- The pieces, each one trimmed.
unfoldable pub trim_all : List Bytes → Option (List Bytes)
unfolding trim
trim_all [] = some []
trim_all (p ∷ ps) = elim (trim p) [
  | none ↦ none
  | some t ↦ elim (trim_all ps) [ none ↦ none | some ts ↦ some (t ∷ ts) ]
]

unfoldable pub trimmed_pieces : Bytes → Option (List Bytes)
unfolding trim_all split
trimmed_pieces text = trim_all (split b',' text)
