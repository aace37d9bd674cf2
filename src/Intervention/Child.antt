-- ===== src/Intervention/Child.antt =====
-- The parent's part in src/intervention/daemon.cpp: waiting for the child, and what the child printed.
pub mod Waiting
use ctguard.Base.{
  ℕ, zero, suc, Bool, true, false, List, [], ◌∷◌, ◌++◌, Option, none, some, Bytes, ◌==◌, leb,
  if◌then◌else◌, is_empty,
}

-- A result of `waitpid`: an error, still running, ended by a signal, or ended with a status.
pub data WaitResult : Type 0 where
  wait_error running signaled : WaitResult
  exited : ℕ → WaitResult

-- How the waiting ends. In the first two cases the child is killed.
pub data Ending : Type 0 where
  not_waited timed_out not_exited successful : Ending
  bad_status : ℕ → Ending

-- At a result that is not `running`.
unfoldable pub ending_of : WaitResult → Ending
ending_of wait_error = not_waited
ending_of running = timed_out
ending_of signaled = not_exited
ending_of (exited zero) = successful
ending_of (exited (suc n)) = bad_status (suc n)

unfoldable pub is_running : WaitResult → Bool
is_running running = true
is_running _ = false

-- The loop, with `timeout`: how it ends, and the seconds that were slept. The n-th call of `waitpid`
-- is a parameter. Without fuel there is no result.
unfoldable pub wait_child : ℕ → (ℕ → WaitResult) → ℕ → ℕ → Option (Ending × ℕ)
unfolding ending_of is_running
wait_child zero waitpid command_timeout timeout = none
wait_child (suc fuel) waitpid command_timeout timeout =
    let again = wait_child fuel waitpid command_timeout (suc timeout) in
    if is_running (waitpid timeout)
    then (if leb command_timeout timeout then some (timed_out, timeout) else again)
    else some (ending_of (waitpid timeout), timeout)

-- A line, unless it is empty.
unfoldable pub printed_line : Bytes → List Bytes
unfolding is_empty
printed_line line = if is_empty line then [] else line ∷ []

-- The text from `start` to the next newline, and what is logged of the rest of the buffer.
unfoldable pub cut_lines : Bytes → Bytes × List Bytes
unfolding printed_line
cut_lines [] = ([], [])
cut_lines (c ∷ cs) =
    let (line, more) = cut_lines cs in
    if c == b'\n' then ([], printed_line line ++ more) else (c ∷ line, more)

-- What is logged of one buffer.
unfoldable pub printed : Bytes → List Bytes
unfolding cut_lines printed_line
printed buffer = let (line, more) = cut_lines buffer in printed_line line ++ more

-- A result of `read`: `EINTR`, another error, or the bytes.
pub data ReadResult : Type 0 where
  interrupted read_error : ReadResult
  bytes : Bytes → ReadResult

-- The loop that reads a pipe to its end.
unfoldable pub drain : List ReadResult → List Bytes
unfolding printed
drain [] = []
drain (interrupted ∷ rs) = drain rs
drain (read_error ∷ rs) = []
drain (bytes [] ∷ rs) = []
drain (bytes (c ∷ cs) ∷ rs) = printed (c ∷ cs) ++ drain rs
