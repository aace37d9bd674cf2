-- ===== src/Intervention/Config/Ready.antt =====
-- The actions that a configuration of ctguard-intervention can have.
use ctguard.Base.{
  ◌≤◌, ◌≡◌, ◌≢◌, ◌⊎◌, inl, refl, Bool, true, not, List, [], ◌∷◌, ◌++◌, Option, Bytes, codes, ok,
  arith, Post-eq-ok, Post-bind, Whatever, All, All-append, is_empty, if-both, beq, ◌>>=◌, inr,
}
use ctguard.Helper.{max_int}
use ctguard.ConfigFile.Group.{GroupInfo}
use ctguard.ConfigFile.Settings.{empty_key, no_command, read_options}
use ctguard.ConfigFile.Settings.Keeps.{
  Gives, Gives-if, Gives-then, Gives-guard, Gives-duration, Gives-read_options, Gives-read_groups,
  Gives-load,
}
use ctguard.Intervention.Config.{
  InterventionAction, Config, new_action, default_config, set_option, set_action, with_command,
  read_action, add_action, read_intervention, parse_config,
}

nonempty : (xs : Bytes) → not (is_empty xs) ≡ true → xs ≢ []
unfolding is_empty
nonempty [] h e = absurd cc
nonempty (x ∷ xs) h e = absurd cc

-- An expression that the configuration took, or that of an action without an option regex.
abbrev pub IsTaken : (Bytes → Bool) → Bytes → Type 0
IsTaken compiles regex = (regex ≡ []) ⊎ (compiles regex ≡ true)

module _ (compiles : Bytes → Bool) where
  -- What an action has while its options are read, under the name of its group.
  abbrev Sound : Bytes → InterventionAction → Type 0
  Sound name a = (a.name ≡ name) × IsTaken compiles a.regex × (a.command_timeout ≤ max_int)

  -- It has a name and a command, its expression is one or not set, and its timeout has 32 bits.
  abbrev pub IsReady : InterventionAction → Type 0
  IsReady a =
      (a.name ≢ []) × (a.command ≢ []) × IsTaken compiles a.regex × (a.command_timeout ≤ max_int)

  abbrev AllReady : Config → Type 0
  AllReady cfg = All IsReady cfg.actions

  IsTaken-compiled : (regex : Bytes) → compiles regex ≡ true → IsTaken compiles regex
  IsTaken-compiled regex h = inr h

  set_action-Sound :
      (name key : Bytes) (vs : List Bytes) (a : InterventionAction)
      → Sound name a
      → Gives (Sound name) (set_action compiles key vs a)
  unfolding set_action
  set_action-Sound name key vs a h =
      search
        (
          Gives-if (Sound name),
          Gives-duration (Sound name),
          Gives-guard (Sound name),
          Gives-then (Sound name),
          IsTaken-compiled,
        )
        depth 30

  set_option-AllReady :
      (key : Bytes) (vs : List Bytes) (cfg : Config)
      → AllReady cfg
      → Gives AllReady (set_option key vs cfg)
  unfolding set_option
  set_option-AllReady key vs cfg h = search (Gives-if AllReady, Gives-then AllReady) depth 30

  with_command-IsReady :
      (name : Bytes) (a : InterventionAction)
      → name ≢ []
      → Sound name a
      → Gives IsReady (with_command a)
  unfolding with_command
  with_command-IsReady name a named s =
      Gives-guard IsReady (not (is_empty a.command)) no_command (ok a)
        (λ c. (rw s.0 named, nonempty a.command c, s.1, s.2))

  read_action-IsReady : (g : GroupInfo) → Gives IsReady (read_action compiles g)
  unfolding read_action
  read_action-IsReady g =
      Gives-guard IsReady (not (is_empty g.keyword)) empty_key
        (read_options (set_action compiles) g.options (new_action g.keyword) >>= with_command)
        (λ named.
          Post-bind Whatever (Sound g.keyword) IsReady _ (with_command)
            (Gives-read_options (Sound g.keyword) (set_action compiles) g.options
              (new_action g.keyword) (set_action-Sound g.keyword) (refl, inl refl, omega arith))
            (λ a s. with_command-IsReady g.keyword a (nonempty g.keyword named) s))

  add_action-AllReady :
      (g : GroupInfo) (cfg : Config) → AllReady cfg → Gives AllReady (add_action compiles g cfg)
  unfolding add_action
  add_action-AllReady g cfg h =
      if-both (Gives AllReady) (beq g.name (codes "action")) _ _
        (Post-bind Whatever IsReady AllReady (read_action compiles g)
          (λ a. ok (record cfg { actions = cfg.actions ++ (a ∷ []) })) (read_action-IsReady g)
          (λ a r. All-append IsReady cfg.actions (a ∷ []) h (r, tt)))
        tt

  -- Each action of a configuration that parse_config accepts is ready.
  pub parse_config-AllReady :
      (file : Option Bytes) (cfg : Config)
      → parse_config compiles file ≡ ok cfg
      → All IsReady cfg.actions
  unfolding parse_config read_intervention
  parse_config-AllReady file cfg e =
      Post-eq-ok AllReady (parse_config compiles file)
        (Gives-load AllReady (codes "intervention") (read_intervention compiles) default_config file
          (λ g c q.
            Post-bind Whatever AllReady AllReady _ _
              (Gives-read_options AllReady set_option g.0.options c set_option-AllReady q)
              (λ c r. Gives-read_groups AllReady (add_action compiles) g.1 c add_action-AllReady r))
          tt)
        e
