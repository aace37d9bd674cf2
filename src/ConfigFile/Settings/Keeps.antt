-- ===== src/ConfigFile/Settings/Keeps.antt =====
-- Predicates on configurations through the steps of their reading.
use ctguard.Base.{
  ℕ, ◌≤◌, ◌≡◌, refl, Bool, true, false, List, [], ◌∷◌, Option, Bytes, beq, if◌then◌else◌, if-both,
  ok, err, ◌>>=◌, ◌>>◌, guard, relabel, Post, Post-bind, Post-then, Post-guard, Whatever,
}
use ctguard.Helper.{Parsed, parse_integral, parse_second_duration, max_int}
use ctguard.Helper.Numbers.{parse_integral-le, parse_second_duration-le}
use ctguard.ConfigFile.Group.{ConfigOption, ConfigGroup, GroupInfo, Groups, nil, cons}
use ctguard.ConfigFile.Settings.{
  LoadError, Loaded, read_options, read_groups, read_tops, parsed, load, bad_value, no_top,
  duration, converted, first,
}

-- If there is a result, the predicate holds of it.
abbrev pub Gives : {A : Type 0} → (A → Type 0) → Loaded A → Type 0
Gives = Post Whatever

module _ {A : Type 0} (Q : A → Type 0) where
  pub Gives-if : (b : Bool) (m n : Loaded A) → Gives Q m → Gives Q n → Gives Q (if b then m else n)
  Gives-if b m n h k = if-both (Gives Q) b m n h k

  pub Gives-then :
      {B : Type 0} (m : Loaded B) (f : B → Loaded A) → ((b : B) → Gives Q (f b)) → Gives Q (m >>= f)
  Gives-then m f h = Post-then Q m f h

  pub Gives-guard :
      (t : Bool) (e : LoadError) (m : Loaded A) → (t ≡ true → Gives Q m) → Gives Q (guard t e >> m)
  Gives-guard t e m h = Post-guard Q t e m h

  Gives-bounded :
      (max : ℕ) (m : Parsed ℕ) (f : ℕ → Loaded A)
      → ((n : ℕ) → m ≡ ok n → n ≤ max)
      → ((n : ℕ) → n ≤ max → Gives Q (f n))
      → Gives Q (relabel bad_value m >>= f)
  Gives-bounded max (ok n) f small h = h n (small n refl)
  Gives-bounded max (err e) f small h = tt

  pub Gives-number :
      (max : ℕ) (v : Bytes) (f : ℕ → Loaded A)
      → ((n : ℕ) → n ≤ max → Gives Q (f n))
      → Gives Q (relabel bad_value (parse_integral max v) >>= f)
  Gives-number max v f h =
      Gives-bounded max (parse_integral max v) f (λ n e. parse_integral-le max v e) h

  pub Gives-plain :
      (vs : List Bytes) (f : ℕ → Loaded A)
      → ((n : ℕ) → n ≤ max_int → Gives Q (f n))
      → Gives Q (relabel bad_value (parse_second_duration vs) >>= f)
  Gives-plain vs f h =
      Gives-bounded max_int (parse_second_duration vs) f (parse_second_duration-le vs) h

  Gives-converted :
      (vs : List Bytes) (m : Parsed ℕ) (f : ℕ → Loaded A)
      → ((n : ℕ) → m ≡ ok n → Gives Q (f n))
      → Gives Q (converted vs m >>= f)
  unfolding converted first
  Gives-converted vs (ok n) f h = h n refl
  Gives-converted [] (err e) f h = tt
  Gives-converted (v ∷ vs) (err e) f h = tt

  pub Gives-duration :
      (vs : List Bytes) (f : ℕ → Loaded A)
      → ((n : ℕ) → n ≤ max_int → Gives Q (f n))
      → Gives Q (duration vs >>= f)
  unfolding duration
  Gives-duration vs f h =
      Gives-converted vs (parse_second_duration vs) f (λ n e. h n (parse_second_duration-le vs n e))

module _ {C : Type 0} (Q : C → Type 0) where
  pub Gives-read_options :
      (set : Bytes → List Bytes → C → Loaded C) (os : List (Bytes × ConfigOption)) (cfg : C)
      → ((key : Bytes) (vs : List Bytes) (c : C) → Q c → Gives Q (set key vs c))
      → Q cfg
      → Gives Q (read_options set os cfg)
  unfolding read_options
  Gives-read_options set [] cfg s q = q
  Gives-read_options set ((k, o) ∷ os) cfg s q =
      Post-bind Whatever Q Q (set k o.options cfg) _ (s k o.options cfg q)
        (λ c r. Gives-read_options set os c s r)

  pub Gives-read_groups :
      (add : GroupInfo → C → Loaded C) (gs : Groups) (cfg : C)
      → ((g : GroupInfo) (c : C) → Q c → Gives Q (add g c))
      → Q cfg
      → Gives Q (read_groups add gs cfg)
  unfolding read_groups
  Gives-read_groups add nil cfg s q = q
  Gives-read_groups add (cons g gs rest) cfg s q =
      Post-bind Whatever Q Q (add g cfg) _ (s g cfg q) (λ c r. Gives-read_groups add rest c s r)

  Gives-read_tops :
      (name : Bytes) (read : ConfigGroup → C → Loaded C) (found : Bool) (gs : Groups) (cfg : C)
      → ((g : ConfigGroup) (c : C) → Q c → Gives Q (read g c))
      → Q cfg
      → Gives Q (read_tops name read found gs cfg)
  unfolding read_tops
  Gives-read_tops name read found nil cfg s q = Gives-guard Q found no_top (ok cfg) (λ e. q)
  Gives-read_tops name read found (cons g gs rest) cfg s q =
      Gives-if Q (beq g.name name) _ _
        (Gives-if Q found _ _ tt (
          Post-bind Whatever Q Q (read (g, gs) cfg) _ (s (g, gs) cfg q)
            (λ c r. Gives-read_tops name read true rest c s r)))
        (Gives-read_tops name read found rest cfg s q)

  pub Gives-load :
      (name : Bytes) (read : ConfigGroup → C → Loaded C) (default : C) (file : Option Bytes)
      → ((g : ConfigGroup) (c : C) → Q c → Gives Q (read g c))
      → Q default
      → Gives Q (load name read default file)
  unfolding load
  Gives-load name read default file s q =
      Gives-then Q (parsed file) _ (λ g. Gives-read_tops name read false g.1 default s q)
