-- ===== src/ConfigFile/Settings.antt =====
-- What the four configurations share: src/research/config.cpp, src/logscan/config.cpp,
-- src/diskscan/config.cpp and src/intervention/config.cpp repeat these loops and tests. An exception
-- is an error of its kind; `out_of_range` is the reading of a vector past its end.
pub mod Safe
pub mod Keeps
use ctguard.Base.{
  ℕ, Bool, true, false, List, [], ◌∷◌, Option, none, some, Bytes, beq, if◌then◌else◌, Outcome, ok,
  err, ◌>>=◌, ◌>>◌, guard, or_err, relabel,
}
use ctguard.Helper.{Parsed, parse_second_duration}
use ctguard.ConfigFile.Group.{ConfigOption, ConfigGroup, GroupInfo, Groups, nil, cons}
use ctguard.ConfigFile.Parser.{ParseError, parse}

pub data LoadError : Type 0 where
  not_open : LoadError
  syntax : ParseError → LoadError
  duplicate_top no_top unknown_option unknown_group bad_arity bad_value empty_key no_command
        out_of_range :
      LoadError

abbrev pub Loaded : Type 0 → Type 0
Loaded A = Outcome LoadError A

-- `options[0]`
unfoldable pub first : List Bytes → Loaded Bytes
first [] = err out_of_range
first (v ∷ vs) = ok v

-- `options[0]`, if there is one value.
unfoldable pub single : List Bytes → Loaded Bytes
single (v ∷ []) = ok v
single _ = err bad_arity

-- A conversion whose exception becomes another one, with `options[0]` in its text.
unfoldable pub converted : {A : Type 0} → List Bytes → Parsed A → Loaded A
unfolding first
converted vs (ok a) = ok a
converted vs (err e) = first vs >>= λ v. err bad_value

unfoldable pub duration : List Bytes → Loaded ℕ
unfolding converted
duration vs = converted vs (parse_second_duration vs)

-- The two texts that a setting can have.
unfoldable pub one_of : {A : Type 0} → Bytes → A → Bytes → A → Bytes → Loaded A
one_of s a t b v = if beq v s then ok a else if beq v t then ok b else err bad_value

-- The loop over the options of a group.
unfoldable pub read_options :
    {C : Type 0} → (Bytes → List Bytes → C → Loaded C) → List (Bytes × ConfigOption) → C → Loaded C
read_options set [] cfg = ok cfg
read_options set ((k, o) ∷ os) cfg = set k o.options cfg >>= read_options set os

-- The loop over the subgroups.
unfoldable pub read_groups : {C : Type 0} → (GroupInfo → C → Loaded C) → Groups → C → Loaded C
read_groups add nil cfg = ok cfg
read_groups add (cons g gs rest) cfg = add g cfg >>= read_groups add rest

-- The loop over the groups of the file, with `found_top`.
unfoldable pub read_tops :
    {C : Type 0} → Bytes → (ConfigGroup → C → Loaded C) → Bool → Groups → C → Loaded C
read_tops name read found nil cfg = guard found no_top >> ok cfg
read_tops name read found (cons g gs rest) cfg =
    if beq g.name name
    then (if found then err duplicate_top else read (g, gs) cfg >>= read_tops name read true rest)
    else read_tops name read found rest cfg

unfoldable pub or_syntax : Outcome ParseError ConfigGroup → Loaded ConfigGroup
or_syntax (ok g) = ok g
or_syntax (err e) = err (syntax e)

unfoldable pub parsed : Option Bytes → Loaded ConfigGroup
unfolding or_syntax parse
parsed none = err not_open
parsed (some input) = or_syntax (parse input)

-- A configuration from the content of its file, if that could be opened.
unfoldable pub load :
    {C : Type 0} → Bytes → (ConfigGroup → C → Loaded C) → C → Option Bytes → Loaded C
unfolding read_tops parsed
load name read default file = parsed file >>= λ g. read_tops name read false g.1 default
