-- ===== src/Research/Tasks/Output.antt =====
-- `output_task`: alerts are written out and handed on to be mailed. An alert's text is not modelled.
use ctguard.Base.{Bool, false, ◌&&◌, ◌||◌, List, [], ◌∷◌, codes, beq, if◌then◌else◌}
use ctguard.Research.Types.{Event}
use ctguard.Research.Config.{Config}

-- `e.control_message() && e.logstr() == "!KILL"`
unfoldable pub ends_output : Event → Bool
ends_output e = e.control_message && beq e.logstr (codes "!KILL")

-- Whether the thread meets its end among the alerts.
unfoldable pub output_ends : List Event → Bool
unfolding ends_output
output_ends [] = false
output_ends (e ∷ es) = ends_output e || output_ends es

-- The alerts that are written, and what `mail_queue` is given.
unfoldable pub output_task : Config → List Event → List Event × List Event
unfolding ends_output
output_task cfg [] = ([], [])
output_task cfg (e ∷ es) =
    let (written, mailed) = output_task cfg es in
    if ends_output e then ([], []) else (e ∷ written, if cfg.mail then e ∷ mailed else mailed)
