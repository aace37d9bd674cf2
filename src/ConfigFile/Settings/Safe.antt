-- ===== src/ConfigFile/Settings/Safe.antt =====
-- The errors of the reading of a configuration.
use ctguard.Base.{
  ℕ, ◌≡◌, ◌≢◌, Bool, true, false, List, [], ◌∷◌, Option, none, some, Bytes, beq, if-both,
  if◌then◌else◌, Outcome, ok, err, ◌>>=◌, ◌>>◌, guard, relabel, Fails, Fails-bind, List-cases, inl,
  inr,
}
use ctguard.Helper.{Parsed, parse_second_duration}
use ctguard.ConfigFile.Group.{ConfigOption, ConfigGroup, GroupInfo, Groups, nil, cons}
use ctguard.ConfigFile.Parser.{ParseError, parse}
use ctguard.ConfigFile.Parser.Valued.{Filled, Valued, IsValued, parse-IsValued}
use ctguard.ConfigFile.Settings.{
  LoadError, Loaded, out_of_range, first, single, converted, duration, one_of, read_options,
  read_groups, read_tops, parsed, or_syntax, load, bad_value, no_top,
}

abbrev NoOverrun : LoadError → Type 0
NoOverrun out_of_range = ⊥
NoOverrun _ = Unit

-- The reading does not go past an end.
abbrev pub Safe : {A : Type 0} → Loaded A → Type 0
Safe = Fails NoOverrun

-- What sets one option is safe on options that have a value.
abbrev pub SafeSetter : {C : Type 0} → (Bytes → List Bytes → C → Loaded C) → Type 0
SafeSetter {C} set = (key v : Bytes) (vs : List Bytes) (cfg : C) → Safe (set key (v ∷ vs) cfg)

pub Safe-if : {A : Type 0} (b : Bool) (m n : Loaded A) → Safe m → Safe n → Safe (if b then m else n)
Safe-if b m n h k = if-both Safe b m n h k

pub Safe-bind :
    {A B : Type 0} (m : Loaded A) (f : A → Loaded B)
    → Safe m
    → ((a : A) → Safe (f a))
    → Safe (m >>= f)
Safe-bind (ok a) f h k = k a
Safe-bind (err e) f h k = h

pub Safe-single : (vs : List Bytes) → Safe (single vs)
unfolding single
Safe-single [] = tt
Safe-single (v ∷ []) = tt
Safe-single (v ∷ w ∷ ws) = tt

pub Safe-first : (v : Bytes) (vs : List Bytes) → Safe (first (v ∷ vs))
unfolding first
Safe-first v vs = tt

pub Safe-bad_value : {A : Type 0} (m : Parsed A) → Safe (relabel bad_value m)
Safe-bad_value (ok a) = tt
Safe-bad_value (err e) = tt

Safe-converted : (v : Bytes) (vs : List Bytes) (m : Parsed ℕ) → Safe (converted (v ∷ vs) m)
unfolding converted first
Safe-converted v vs (ok a) = tt
Safe-converted v vs (err e) = tt

pub Safe-duration : (v : Bytes) (vs : List Bytes) → Safe (duration (v ∷ vs))
unfolding duration
Safe-duration v vs = Safe-converted v vs (parse_second_duration (v ∷ vs))

pub Safe-one_of :
    {A : Type 0} (s : Bytes) (a : A) (t : Bytes) (b : A) (v : Bytes) → Safe (one_of s a t b v)
unfolding one_of
Safe-one_of s a t b v = Safe-if (beq v s) _ _ tt (Safe-if (beq v t) _ _ tt tt)

pub Safe-guard :
    {A : Type 0} (t : Bool) (e : LoadError) (m : Loaded A)
    → NoOverrun e
    → Safe m
    → Safe (guard t e >> m)
Safe-guard true e m h k = k
Safe-guard false e m h k = h

pub ruleset safe_rules =
    (Safe-if, Safe-bind, Safe-single, Safe-first, Safe-bad_value, Safe-duration, Safe-one_of)

or_syntax-Safe : (m : Outcome ParseError ConfigGroup) → Safe (or_syntax m)
unfolding or_syntax
or_syntax-Safe (ok g) = tt
or_syntax-Safe (err e) = tt

or_syntax-eq-ok :
    (m : Outcome ParseError ConfigGroup) (g : ConfigGroup) → or_syntax m ≡ ok g → m ≡ ok g
unfolding or_syntax
or_syntax-eq-ok (ok h) g e = cc
or_syntax-eq-ok (err x) g e = cc

parsed-Safe : (file : Option Bytes) → Safe (parsed file)
unfolding parsed
parsed-Safe none = tt
parsed-Safe (some input) = or_syntax-Safe (parse input)

parsed-IsValued : (file : Option Bytes) (g : ConfigGroup) → parsed file ≡ ok g → IsValued g
unfolding parsed
parsed-IsValued none g e = absurd cc
parsed-IsValued (some input) g e = parse-IsValued input g (or_syntax-eq-ok (parse input) g e)

module _ {C : Type 0} where
  pub Safe-read_options :
      (set : Bytes → List Bytes → C → Loaded C) (os : List (Bytes × ConfigOption)) (cfg : C)
      → SafeSetter set
      → Filled os
      → Safe (read_options set os cfg)
  unfolding read_options
  Safe-read_options set [] cfg s f = tt
  Safe-read_options set ((k, o) ∷ os) cfg s f = elim (List-cases o.options) [
    | inl e ↦ absurd (f.0 e)
    | inr (v, vs, e) ↦
        Safe-bind (set k o.options cfg) _ (rw e (s k v vs cfg))
          (λ c. Safe-read_options set os c s f.1)
  ]

  pub Safe-read_groups :
      (add : GroupInfo → C → Loaded C) (gs : Groups) (cfg : C)
      → ((g : GroupInfo) (c : C) → Filled g.options → Safe (add g c))
      → Valued gs
      → Safe (read_groups add gs cfg)
  unfolding read_groups
  Safe-read_groups add nil cfg s v = tt
  Safe-read_groups add (cons g gs rest) cfg s v =
      Safe-bind (add g cfg) _ (s g cfg v.0) (λ c. Safe-read_groups add rest c s v.2)

  Safe-read_tops :
      (name : Bytes) (read : ConfigGroup → C → Loaded C) (found : Bool) (gs : Groups) (cfg : C)
      → ((g : ConfigGroup) (c : C) → IsValued g → Safe (read g c))
      → Valued gs
      → Safe (read_tops name read found gs cfg)
  unfolding read_tops
  Safe-read_tops name read found nil cfg s v = Safe-guard found no_top (ok cfg) tt tt
  Safe-read_tops name read found (cons g gs rest) cfg s v =
      Safe-if (beq g.name name) _ _
        (Safe-if found _ _ tt (
          Safe-bind (read (g, gs) cfg) _ (s (g, gs) cfg (v.0, v.1))
            (λ c. Safe-read_tops name read true rest c s v.2)))
        (Safe-read_tops name read found rest cfg s v.2)

  -- What reads a group of the parser safely makes a safe way to load.
  pub load-Safe :
      (name : Bytes) (read : ConfigGroup → C → Loaded C) (default : C) (file : Option Bytes)
      → ((g : ConfigGroup) (c : C) → IsValued g → Safe (read g c))
      → Safe (load name read default file)
  unfolding load
  load-Safe name read default file s =
      Fails-bind NoOverrun (parsed file) _ (parsed-Safe file)
        (λ g e. Safe-read_tops name read false g.1 default s (parsed-IsValued file g e).1)

pub Safe-no_overrun : {A : Type 0} (m : Loaded A) → Safe m → m ≢ err out_of_range
Safe-no_overrun m h e = rw e at h
