-- ===== src/Intervention/Action.antt =====
-- The start of src/intervention/daemon.cpp: `run_cmd`, which the child process runs, as the calls of
-- the system that it makes. Which of them succeed, and what the user and group databases say, are
-- parameters. A call that fails ends the child, and so does `execv` either way.
pub mod Privileges
use ctguard.Base.{ℕ, Bool, true, false, List, [], ◌∷◌, Bytes, if◌then◌else◌, is_empty}
use ctguard.Intervention.Config.{InterventionAction}

-- `getgrnam_r`, `getpwnam_r`: an error, no such entry, or its number.
pub data Entry : Type 0 where
  failed missing : Entry
  found : ℕ → Entry

pub data Call : Type 0 where
  change_directory : Call
  set_group : ℕ → Call
  set_user : ℕ → Call
  redirect_stdout redirect_stderr close_pipes : Call
  execute : Bytes → Bytes → Call

pub record Host : Type 0 where
  pub group_entry : Bytes → Entry
  pub user_entry : Bytes → Entry
  pub succeeds : Call → Bool

-- A call, and what is done if it succeeds.
unfoldable pub attempt : Host → Call → List Call → List Call
attempt host c rest = c ∷ (if host.succeeds c then rest else [])

-- A number from a database, and what is done with it.
unfoldable pub with_entry : Entry → (ℕ → List Call) → List Call
with_entry (found n) next = next n
with_entry _ next = []

unfoldable pub enter_root : Host → Bool → List Call → List Call
unfolding attempt
enter_root host unit_test rest = if unit_test then rest else attempt host change_directory rest

unfoldable pub become_group : Host → Bytes → List Call → List Call
unfolding attempt with_entry is_empty
become_group host group rest =
    if is_empty group
    then rest
    else with_entry (host.group_entry group) (λ gid. attempt host (set_group gid) rest)

unfoldable pub become_user : Host → Bytes → List Call → List Call
unfolding attempt with_entry is_empty
become_user host user rest =
    if is_empty user
    then rest
    else with_entry (host.user_entry user) (λ uid. attempt host (set_user uid) rest)

unfoldable pub start_command : Host → InterventionAction → Bytes → List Call
unfolding attempt
start_command host action argument =
    attempt host redirect_stdout
      (attempt host redirect_stderr (close_pipes ∷ execute action.command argument ∷ []))

unfoldable pub run_cmd : Host → Bool → InterventionAction → Bytes → List Call
unfolding enter_root become_group become_user start_command
run_cmd host unit_test action argument = enter_root host unit_test (
    become_group host action.group
      (become_user host action.user (start_command host action argument)))
