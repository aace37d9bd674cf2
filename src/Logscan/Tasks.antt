-- ===== src/Logscan/Tasks.antt =====
-- `logfile_task` of src/logscan/daemon.cpp: all files, in rounds. What the system shows of each file
-- is given, and a round for each test of `RUNNING` that holds.
use ctguard.Base.{
  ℕ, ◌+◌, ◌%◌, ◌^◌, Bool, List, [], ◌∷◌, ◌++◌, Option, Bytes, ltb, if◌then◌else◌, is_empty, Outcome,
  ok, ◌>>=◌,
}
use ctguard.Research.Types.{SourceEvent}
use ctguard.Logscan.Config.{Config, LogfileConfig}
use ctguard.Logscan.Logfile.{Logfile, Look, open_file, scan_file}
use ctguard.Logscan.State.{StateError, get_state, save_state}

-- The loop that opens the files.
unfoldable pub open_all :
    Bool → List (Bytes × ℕ × ℕ) → List (LogfileConfig × Look) → List SourceEvent × List Logfile
open_all unit_test saved [] = ([], [])
open_all unit_test saved ((lc, look) ∷ files) =
    let (out, ls) = open_file unit_test look saved lc in
    let (more, rest) = open_all unit_test saved files in (out ++ more, ls ∷ rest)

-- The loop over the files, with what a round shows of each.
unfoldable pub scan_all : Bool → List Look → List Logfile → List SourceEvent × List Logfile
scan_all unit_test (look ∷ looks) (ls ∷ files) =
    let (out, next) = scan_file unit_test look ls in
    let (more, rest) = scan_all unit_test looks files in (out ++ more, next ∷ rest)
scan_all unit_test _ files = ([], files)

-- The rounds, with the counter `state_file_interval`, and what is written to the state file, also
-- behind the last round.
unfoldable pub rounds :
    Bool → ℕ → ℕ → List (List Look) → List Logfile → List SourceEvent × List Bytes
rounds unit_test interval counter [] files = ([], save_state files ∷ [])
rounds unit_test interval counter (looks ∷ more) files =
    let (out, next) = scan_all unit_test looks files in
    let n = (counter + 1) % 2 ^ 32 in
    let (last, saved) = rounds unit_test interval n more next in
    let (last0, saved0) = rounds unit_test interval 0 more next in
    if ltb interval n then (out ++ last0, save_state next ∷ saved0) else (out ++ last, saved)

-- The thread ends at once if there is no file.
unfoldable pub logfile_task :
    Bool
    → Config
    → Option Bytes
    → List (LogfileConfig × Look)
    → List (List Look)
    → Outcome StateError (List SourceEvent × List Bytes)
logfile_task unit_test cfg state_file files looks = do
  saved ← get_state state_file
  let (out, opened) = open_all unit_test saved files
  let (more, written) = rounds unit_test cfg.state_file_interval 0 looks opened
  ok (if is_empty opened then ([], []) else (out ++ more, written))
