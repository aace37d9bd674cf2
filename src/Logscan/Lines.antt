-- ===== src/Logscan/Lines.antt =====
-- The lines that `std::getline` gives.
use ctguard.Base.{List, [], ◌∷◌, ◌++◌, Bytes, ◌==◌, if◌then◌else◌, is_empty}

-- The lines of a text that are not empty, behind a piece of a line.
unfoldable pub lines : Bytes → Bytes → List Bytes
unfolding is_empty
lines line [] = if is_empty line then [] else line ∷ []
lines line (c ∷ cs) =
    if c == b'\n'
    then (if is_empty line then lines [] cs else line ∷ lines [] cs)
    else lines (line ++ (c ∷ [])) cs
