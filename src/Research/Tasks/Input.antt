-- ===== src/Research/Tasks/Input.antt =====
-- `input_task`: datagrams in, source events out. The socket is a list of what `recv` gives and of
-- the flag `RUNNING` where the outer loop tests it next (it holds at the start); cereal's decoder is
-- a parameter.
use ctguard.Base.{
  Bool, true, false, List, [], ◌∷◌, ◌++◌, Option, none, some, Bytes, codes, if◌then◌else◌, is_empty,
}
use ctguard.Research.Types.{SourceEvent}
use ctguard.Research.Tasks.Processing.{is_kill}

-- `failed` is a negative result: a timeout, an interrupt, or another error.
pub data Reception : Type 0 where
  failed : Reception
  received : Bytes → Reception

-- The inner loop ends here: at a failure, or behind an empty datagram.
unfoldable pub ends_burst : Reception → Bool
ends_burst failed = true
ends_burst (received bytes) = is_empty bytes

-- A decoded message is queued, unless it is the kill message.
unfoldable pub admit : Option SourceEvent → List SourceEvent
admit none = []
admit (some se) = if is_kill se then [] else se ∷ []

unfoldable pub handle : (Bytes → Option SourceEvent) → Reception → List SourceEvent
unfolding admit
handle decode failed = []
handle decode (received bytes) = admit (decode bytes)

-- What the loops queue, and whether they have ended.
unfoldable pub receive :
    (Bytes → Option SourceEvent) → List (Reception × Bool) → List SourceEvent × Bool
unfolding handle ends_burst
receive decode [] = ([], false)
receive decode ((r, running) ∷ rs) =
    let (more, stopped) = receive decode rs in
    let taken = handle decode r in
    if ends_burst r
    then (if running then (taken ++ more, stopped) else (taken, true))
    else (taken ++ more, stopped)

-- The message that the thread itself sends at its end.
unfoldable pub kill_message : SourceEvent
kill_message = record {
  hostname = [];
  source_program = [];
  source_domain = [];
  message = codes "!KILL";
  control_message = true;
  time_scanned = 0;
  time_send = 0;
}

unfoldable pub input_task :
    (Bytes → Option SourceEvent) → List (Reception × Bool) → List SourceEvent
unfolding receive kill_message
input_task decode rs =
    let (out, stopped) = receive decode rs in if stopped then out ++ (kill_message ∷ []) else out
