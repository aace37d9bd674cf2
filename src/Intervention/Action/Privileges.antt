-- ===== src/Intervention/Action/Privileges.antt =====
-- The user and the group of a command.
use ctguard.Base.{
  ℕ, ◌≡◌, ◌≢◌, refl, Bool, true, false, List, [], ◌∷◌, Bytes, Elem, inl, inr, arith, Bool-cases,
  ◌⊎◌, is_empty, if-both,
}
use ctguard.Intervention.Config.{InterventionAction}
use ctguard.Intervention.Action.{
  Entry, failed, missing, found, Call, change_directory, set_group, set_user, redirect_stdout,
  redirect_stderr, close_pipes, execute, Host, attempt, with_entry, enter_root, become_group,
  become_user, start_command, run_cmd,
}

-- The second call is never made without the first one before it.
abbrev pub Precedes : Call → Call → List Call → Type 0
Precedes c d [] = Unit
Precedes c d (x ∷ xs) = (x ≡ c) ⊎ ((x ≢ d) × Precedes c d xs)

-- The group is known, and was set with success before the command was executed.
abbrev pub GroupSet : Host → Bytes → Call → List Call → Type 0
GroupSet host group command calls =
    (gid : ℕ) × (host.group_entry group ≡ found gid)
    × (host.succeeds (set_group gid) ≡ true)
    × Precedes (set_group gid) command calls

-- The same for the user.
abbrev pub UserSet : Host → Bytes → Call → List Call → Type 0
UserSet host user command calls =
    (uid : ℕ) × (host.user_entry user ≡ found uid)
    × (host.succeeds (set_user uid) ≡ true)
    × Precedes (set_user uid) command calls

module _ (host : Host) (cmd arg : Bytes) where
  abbrev Runs : List Call → Type 0
  Runs = Elem (execute cmd arg)

  Runs-attempt :
      (c : Call) (rest : List Call)
      → c ≢ execute cmd arg
      → Runs (attempt host c rest)
      → (host.succeeds c ≡ true) × Runs rest
  unfolding attempt
  Runs-attempt c rest other (inl e) = absurd (other e)
  Runs-attempt c rest other (inr m) = elim (Bool-cases (host.succeeds c)) [
    | inl e ↦ (e, rw e at m)
    | inr e ↦ absurd (rw e at m)
  ]

  Runs-with_entry :
      (e : Entry) (next : ℕ → List Call)
      → Runs (with_entry e next)
      → (n : ℕ) × (e ≡ found n) × Runs (next n)
  unfolding with_entry
  Runs-with_entry (found n) next m = (n, refl, m)
  Runs-with_entry failed next m = absurd m
  Runs-with_entry missing next m = absurd m

  Runs-enter_root :
      (unit_test : Bool) (rest : List Call) → Runs (enter_root host unit_test rest) → Runs rest
  unfolding enter_root
  Runs-enter_root true rest m = m
  Runs-enter_root false rest m = (Runs-attempt change_directory rest (λ e. ground arith) m).1

  Runs-become_group :
      (group : Bytes) (rest : List Call)
      → Runs (become_group host group rest)
      → (group ≢ [] → GroupSet host group (execute cmd arg) (become_group host group rest))
        × Runs rest
  unfolding become_group with_entry attempt
  Runs-become_group [] rest m = (λ h. absurd (h refl), m)
  Runs-become_group (c ∷ cs) rest m =
      let (gid, e, k) = Runs-with_entry (host.group_entry (c ∷ cs)) _ m in
      let (done, left) = Runs-attempt (set_group gid) rest (λ e. ground arith) k in
      (λ h. (gid, e, done, rw e (inl refl)), left)

  Runs-become_user :
      (user : Bytes) (rest : List Call)
      → Runs (become_user host user rest)
      → (user ≢ [] → UserSet host user (execute cmd arg) (become_user host user rest)) × Runs rest
  unfolding become_user with_entry attempt
  Runs-become_user [] rest m = (λ h. absurd (h refl), m)
  Runs-become_user (c ∷ cs) rest m =
      let (uid, e, k) = Runs-with_entry (host.user_entry (c ∷ cs)) _ m in
      let (done, left) = Runs-attempt (set_user uid) rest (λ e. ground arith) k in
      (λ h. (uid, e, done, rw e (inl refl)), left)

  -- The calls with something in front of them.
  Precedes-attempt :
      (c d x : Call) (rest : List Call)
      → x ≢ d
      → Precedes c d rest
      → Precedes c d (attempt host x rest)
  unfolding attempt
  Precedes-attempt c d x rest other p =
      inr (other, if-both (Precedes c d) (host.succeeds x) rest [] p tt)

  Precedes-with_entry :
      (c d : Call) (e : Entry) (next : ℕ → List Call)
      → ((n : ℕ) → Precedes c d (next n))
      → Precedes c d (with_entry e next)
  unfolding with_entry
  Precedes-with_entry c d (found n) next p = p n
  Precedes-with_entry c d failed next p = tt
  Precedes-with_entry c d missing next p = tt

  Precedes-enter_root :
      (c : Call) (unit_test : Bool) (rest : List Call)
      → Precedes c (execute cmd arg) rest
      → Precedes c (execute cmd arg) (enter_root host unit_test rest)
  unfolding enter_root
  Precedes-enter_root c unit_test rest p =
      if-both (Precedes c (execute cmd arg)) unit_test _ _ p
        (Precedes-attempt c (execute cmd arg) change_directory rest (λ e. ground arith) p)

  Precedes-become_group :
      (c : Call) (group : Bytes) (rest : List Call)
      → Precedes c (execute cmd arg) rest
      → Precedes c (execute cmd arg) (become_group host group rest)
  unfolding become_group
  Precedes-become_group c group rest p =
      if-both (Precedes c (execute cmd arg)) (is_empty group) _ _ p (
        Precedes-with_entry c (execute cmd arg) (host.group_entry group) _
          (λ gid. Precedes-attempt c (execute cmd arg) (set_group gid) rest (λ e. ground arith) p))

  Runs-start_command :
      (action : InterventionAction) (argument : Bytes)
      → Runs (start_command host action argument)
      → (cmd ≡ action.command) × (arg ≡ argument)
  unfolding start_command
  Runs-start_command action argument m =
      let out = Runs-attempt redirect_stdout _ (λ e. ground arith) m in
      let err = Runs-attempt redirect_stderr _ (λ e. ground arith) out.1 in same err.1
    where
      same :
          Runs (close_pipes ∷ execute action.command argument ∷ [])
          → (cmd ≡ action.command) × (arg ≡ argument)
      same (inl e) = ground arith
      same (inr (inl e)) = ground arith
      same (inr (inr m)) = absurd m

  -- If the child gets to a command, it is the action's with the argument, and before that a
  -- configured group and a configured user were looked up and set.
  pub run_cmd-privileges :
      (unit_test : Bool) (action : InterventionAction) (argument : Bytes)
      → Runs (run_cmd host unit_test action argument)
      → (cmd ≡ action.command)
        × (arg ≡ argument)
        × (action.group ≢ []
            → GroupSet host action.group (execute cmd arg) (run_cmd host unit_test action argument))
        × (action.user ≢ []
            → UserSet host action.user (execute cmd arg) (run_cmd host unit_test action argument))
  unfolding run_cmd
  run_cmd-privileges unit_test action argument m =
      let as_user = become_user host action.user (start_command host action argument) in
      let as_group = become_group host action.group as_user in
      let (g, grouped) = Runs-become_group action.group as_user (Runs-enter_root unit_test _ m) in
      let (u, started) = Runs-become_user action.user _ grouped in
      let (c, a) = Runs-start_command action argument started in
      (
        c,
        a,
        λ h.
            (let (gid, known, done, p) = g h in
              (gid, known, done, Precedes-enter_root (set_group gid) unit_test as_group p)),
        λ h.
            (let (uid, known, done, p) = u h in
              (
                uid,
                known,
                done,
                Precedes-enter_root (set_user uid) unit_test as_group
                    (Precedes-become_group (set_user uid) action.group as_user p),
              )),
      )
