-- ===== src/Research/Env.antt =====
-- What src/research takes from its surroundings, the shared state, and its errors.
use ctguard.Base.{
  ℕ, ◌+◌, ◌≡◌, List, Option, none, some, Bytes, length, lookup, assign, nat_key, Outcome,
}
use ctguard.Research.Types.{States, RuleState, fresh_state}

-- The standard library's regular expressions, its clock and its time format.
-- `mark_count p` is `none` where `std::regex{p}` throws; a match is the list of the captured texts.
pub record Env : Type 0 where
  pub mark_count : Bytes → Option ℕ
  pub regex_search : Bytes → Bytes → Option (List Bytes)
  pub regex_match : Bytes → Bytes → Option (List Bytes)
  pub clock : ℕ → ℕ
  pub format_time : ℕ → Bytes

-- A match has one text for each group of the expression.
pub record MatchesMarks (env : Env) : Type 0 where
  pub search_marks :
      (p s : Bytes) (gs : List Bytes)
      → env.regex_search p s ≡ some gs
      → env.mark_count p ≡ some (length gs)
  pub match_marks :
      (p s : Bytes) (gs : List Bytes)
      → env.regex_match p s ≡ some gs
      → env.mark_count p ≡ some (length gs)

-- `rules_state`, and how often the clock was read.
pub record World : Type 0 where
  pub states : States
  pub ticks : ℕ

-- `unknown_child` and `no_fitting_rule` are exceptions of the code, `bad_regex` is the one of
-- `std::regex`; `out_of_range` is a vector's index past its end, which C++ leaves undefined.
-- `too_deep` is the model's own: the fuel for the depth of the rules ran out.
pub data Error : Type 0 where
  unknown_child no_fitting_rule bad_regex out_of_range too_deep : Error

abbrev pub Result {ℓ} : Type ℓ → Type ℓ
Result A = Outcome Error A

-- `rules_state[id]`: a missing entry is a fresh one.
abbrev pub or_fresh : Option RuleState → RuleState
or_fresh none = fresh_state
or_fresh (some s) = s

abbrev pub state_at : ℕ → World → RuleState
state_at id w = or_fresh (lookup id w.states)

abbrev pub put_state : ℕ → RuleState → World → World
put_state id s w = record w { states = assign id s w.states }

-- `std::time(nullptr)` reads the clock, and the next reading is another one.
abbrev pub now : Env → World → ℕ
now env w = env.clock w.ticks

abbrev pub tick : World → World
tick w = record w { ticks = w.ticks + 1 }
