-- ===== src/Diskscan/Scan.antt =====
-- `scan`, `scan_task` and `event_task` of src/diskscan/daemon.cpp: from the watched directories to
-- the objects that `alert_task` is given.
pub mod Below
pub mod Forward
use ctguard.Base.{
  ℕ, Bool, true, false, not, ◌&&◌, ◌||◌, List, [], ◌∷◌, ◌++◌, map, Option, none, some, Bytes, codes,
  beq, if◌then◌else◌, is_empty,
}
use ctguard.Diskscan.Flags.{Flags, no_flags, kill_flag, startscan_flag, midscan_flag, is_special}
use ctguard.Diskscan.FileData.{FileData, Sight, DiffDatabase, construct}
use ctguard.Diskscan.Config.{Watch}

-- What a walk through a directory meets: its end, an exception of `opendir` or `readdir`, or an
-- entry with its name, whether it is a directory, what a walk through that meets, and the rest.
pub data Dir : Type 0 where
  nil failed : Dir
  entry : Bytes → Bool → Dir → Dir → Dir

-- An event on a path, as it stands in the queues.
abbrev pub PathEvent : Type 0
PathEvent = Bytes × Flags

unfoldable pub is_dot : Bytes → Bool
unfolding beq
is_dot name = beq name (codes ".") || beq name (codes "..")

unfoldable pub child_path : Bytes → Bytes → Bytes
child_path path name = path ++ (b'/' ∷ name)

unfoldable pub scan_flags : Bool → Flags
scan_flags check_diff = record no_flags {
  chk_content = true;
  force_update = true;
  chk_diff = check_diff;
}

module _ (recursive check_diff : Bool) where
  -- An exception ends the walk through this directory, and no other.
  unfoldable pub scan : Bytes → Dir → List PathEvent
  unfolding is_dot child_path scan_flags
  scan path nil = []
  scan path failed = []
  scan path (entry name is_dir inner rest) =
      let child = child_path path name in
      let below = scan child inner in
      let more = scan path rest in
      if is_dot name
      then more
      else (child, scan_flags check_diff) ∷ ((if recursive && is_dir then below else []) ++ more)

-- What `scan_task` takes from its queue, whether RUNNING is set then, and what a scan would meet.
pub record ScanRound : Type 0 where
  pub running : Bool
  pub event : PathEvent
  pub dir : Dir

unfoldable pub scan_one : Bytes → Flags → Dir → List PathEvent
unfolding is_empty is_special scan
scan_one path flags dir =
    if is_empty path
    then (if is_special flags then ([], flags) ∷ [] else [])
    else scan flags.recursive flags.chk_diff path dir

unfoldable pub scan_task : List ScanRound → List PathEvent
unfolding scan_one
scan_task [] = []
scan_task (r ∷ rs) =
    let more = scan_one r.event.0 r.event.1 r.dir ++ scan_task rs in
    if r.event.1.kill || not r.running then ([], kill_flag) ∷ [] else more

-- What `daemon` asks of `scan_task` for a scan.
unfoldable pub watch_event : Watch → PathEvent
watch_event w = (w.path, record no_flags { recursive = w.recursive; chk_diff = w.check_diff })

unfoldable pub scan_requests : List Watch → List PathEvent
unfolding watch_event
scan_requests watches =
    ([], startscan_flag) ∷ (map watch_event watches ++ (([], midscan_flag) ∷ []))

-- What `event_task` takes from its queue, whether RUNNING is set then, and what is seen of the path.
pub record EventRound : Type 0 where
  pub running : Bool
  pub event : PathEvent
  pub sight : Sight

abbrev pub Item : Type 0
Item = Option FileData × Flags

module _ (hash : Bytes → Bytes) (unified : List Bytes → List Bytes → Bytes) (limit : ℕ) where
  unfoldable pub look_at : Sight → PathEvent → DiffDatabase → Item × DiffDatabase
  look_at sight (path, flags) diffs =
      let (found, kept) =
        construct hash unified limit sight path flags.chk_content flags.chk_diff diffs in
      ((found, flags), kept)

  unfoldable pub event_task : List EventRound → DiffDatabase → List Item
  unfolding look_at is_special
  event_task [] diffs = []
  event_task (r ∷ rs) diffs =
      let (item, kept) = look_at r.sight r.event diffs in
      let passed = (none, r.event.1) ∷ event_task rs diffs in
      let seen = item ∷ event_task rs kept in
      if r.event.1.kill || not r.running
      then (none, r.event.1) ∷ []
      else if is_special r.event.1
      then passed
      else seen
