-- ===== src/Logscan/Output.antt =====
-- `output_task` of src/logscan/daemon.cpp: messages are handed to the sink, and kept where it fails.
-- That of src/diskscan/daemon.cpp is the same, but for the measuring of times. And what
-- `systemd_task` makes of a datagram.
pub mod Kept
use ctguard.Base.{
  ℕ, Bool, true, false, ◌&&◌, List, [], ◌∷◌, ◌++◌, Option, none, some, Bytes, codes, beq, ◌==◌,
  if◌then◌else◌,
}
use ctguard.Sink.{resend}
use ctguard.Research.Types.{SourceEvent}

-- `se->control_message && se->message == "!KILL"`
unfoldable pub ends_output : SourceEvent → Bool
unfolding beq
ends_output se = se.control_message && beq se.message (codes "!KILL")

-- A round, with what `take` gives within a second: whether the thread ends, what was sent, and what
-- still waits.
unfoldable pub output_round :
    (ℕ → Bool) → Option SourceEvent → List SourceEvent → Bool × List SourceEvent × List SourceEvent
unfolding resend ends_output
output_round sink none q = let (sent, left) = resend sink 0 q in (false, sent, left)
output_round sink (some se) q =
    let (sent, left) = resend sink 0 q in
    if ends_output se
    then (true, sent, left)
    else if sink 0
    then (false, se ∷ [], q)
    else (false, [], q ++ (se ∷ []))

abbrev pub Round : Type 0
Round = (ℕ → Bool) × Option SourceEvent

-- What is sent in all, and what waits at the end; at the end of the thread that is discarded.
unfoldable pub output_task : List Round → List SourceEvent → List SourceEvent × List SourceEvent
unfolding output_round
output_task [] q = ([], q)
output_task ((sink, input) ∷ rs) q =
    let (stop, sent, left) = output_round sink input q in
    let (more, rest) = output_task rs left in if stop then (sent, left) else (sent ++ more, rest)
