-- ===== src/Diskscan/Realtime.antt =====
-- `add_watch`, `watch_task` and `rtevent_task` of src/diskscan/daemon.cpp: from inotify's events to
-- the objects that `alert_task` is given. The descriptors that `inotify_add_watch` gives, and the
-- search for `realtime_ignore` in a path, are parameters.
pub mod Renamed
use ctguard.Base.{
  ℕ, ◌+◌, Bool, true, false, not, ◌&&◌, ◌||◌, List, [], ◌∷◌, ◌++◌, Option, none, some, Bytes, leb,
  if◌then◌else◌, lookup, emplace, remove_key, nat_key, Outcome, ok, err, ◌>>=◌,
}
use ctguard.Diskscan.Flags.{Flags, no_flags, kill_flag}
use ctguard.Diskscan.FileData.{Sight, DiffDatabase}
use ctguard.Diskscan.Scan.{Dir, nil, failed, entry, PathEvent, Item, is_dot, child_path, look_at}
use ctguard.Diskscan.Config.{Watch}

-- The masks that `watch_task` tells apart; `_dir` for `| IN_ISDIR`, `other` for all other masks.
pub data Mask : Type 0 where
  delete_self create_dir moved_to_dir create moved_to delete_dir delete moved_from modify : Mask
  attrib attrib_dir move_self ignored other : Mask

-- `struct inotify_event`, its name if its `len` is not 0.
pub record InotifyEvent : Type 0 where
  pub wd : ℕ
  pub mask : Mask
  pub name : Option Bytes

-- The paths by their descriptors.
abbrev pub Watches : Type 0
Watches = List (ℕ × Bytes)

pub data WatchError : Type 0 where
  no_directory no_watch : WatchError

module _ (descriptor : Bytes → Option ℕ) where
  -- The watches on the directories in a directory, at any depth; here an exception of the walk is
  -- not caught.
  unfoldable pub add_inner : Bytes → Dir → Watches → Outcome WatchError Watches
  unfolding is_dot child_path
  add_inner path nil ws = ok ws
  add_inner path failed ws = err no_directory
  add_inner path (entry name is_dir inner rest) ws =
      let child = child_path path name in
      let skipped = add_inner path rest ws in
      let watched =
        λ (wd : ℕ). add_inner child inner (emplace wd child ws) >>= add_inner path rest in
      if is_dir && not (is_dot name)
      then (elim (descriptor child) [ none ↦ skipped | some wd ↦ watched wd ])
      else skipped

  unfoldable pub add_watch : Bool → Bytes → Dir → Watches → Outcome WatchError Watches
  unfolding add_inner
  add_watch recursive path dir ws = elim (descriptor path) [
    | none ↦ ok ws
    | some wd ↦
        if recursive then add_inner path dir (emplace wd path ws) else ok (emplace wd path ws)
  ]

-- What a round gives to the queue of `rtevent_task`, with the time, and to that of `scan_task`.
pub record Notices : Type 0 where
  pub events : List (ℕ × Bytes × Flags)
  pub scans : List PathEvent

abbrev pub no_notices : Notices
no_notices = record { events = []; scans = [] }

-- An exception of `watch_task`, and what the event had given to the queues before.
abbrev pub Stopped : Type 0
Stopped = WatchError × Notices

-- `queue.emplace(…); scan_queue.emplace(…);` in front of `add_watch`.
unfoldable pub told : Notices → Outcome WatchError Watches → Outcome Stopped (Watches × Notices)
told out (ok ws) = ok (ws, out)
told out (err e) = err (e, out)

-- What later events give to the queues comes behind what was given before.
unfoldable pub along :
    Notices → Outcome Stopped (Watches × Notices) → Outcome Stopped (Watches × Notices)
along out (ok (ws, outs)) =
    ok (ws, record { events = out.events ++ outs.events; scans = out.scans ++ outs.scans })
along out (err (e, outs)) =
    err (e, record { events = out.events ++ outs.events; scans = out.scans ++ outs.scans })

unfoldable pub full_path : Bytes → Option Bytes → Bytes
unfolding child_path
full_path path none = path
full_path path (some name) = child_path path name

unfoldable pub is_ignored : Mask → Bool
is_ignored ignored = true
is_ignored _ = false

-- An event that is read, the clock then, and what a walk through its directory would meet.
pub record Reading : Type 0 where
  pub event : InotifyEvent
  pub time : ℕ
  pub dir : Dir

abbrev pub content_flags : Flags
content_flags = record no_flags { chk_content = true }

unfoldable pub new_directory : Watch → ℕ → Bytes → Notices
new_directory w time path = record {
  events = (time, path, content_flags) ∷ [];
  scans = (path, record no_flags { recursive = w.recursive }) ∷ [];
}

module _ (descriptor : Bytes → Option ℕ) (ignores : Bytes → Bool) (w : Watch) where
  abbrev pub with_diff : Flags → Flags
  with_diff f = record f { chk_diff = w.check_diff }

  -- The `switch` over the mask.
  unfoldable pub handle_mask :
      Mask → ℕ → ℕ → Bytes → Dir → Watches → Outcome Stopped (Watches × Notices)
  unfolding add_watch told new_directory
  handle_mask delete_self wd time path dir ws =
      ok (remove_key wd ws, record no_notices { events = (time, path, with_diff no_flags) ∷ [] })
  handle_mask create_dir wd time path dir ws =
      told (new_directory w time path) (add_watch descriptor w.recursive path dir ws)
  handle_mask moved_to_dir wd time path dir ws =
      told (new_directory w time path) (add_watch descriptor w.recursive path dir ws)
  handle_mask delete_dir wd time path dir ws =
      ok (ws, record no_notices { events = (time, path, content_flags) ∷ [] })
  handle_mask attrib wd time path dir ws =
      ok (ws, record no_notices { events = (time, path, no_flags) ∷ [] })
  handle_mask attrib_dir wd time path dir ws =
      ok (ws, record no_notices { events = (time, path, no_flags) ∷ [] })
  handle_mask other wd time path dir ws =
      ok (ws, record no_notices { events = (time, path, content_flags) ∷ [] })
  handle_mask ignored wd time path dir ws = ok (ws, no_notices)
  handle_mask _ wd time path dir ws =
      ok (ws, record no_notices { events = (time, path, with_diff content_flags) ∷ [] })

  unfoldable pub handle_path :
      Reading → Option Bytes → Watches → Outcome Stopped (Watches × Notices)
  unfolding handle_mask full_path
  handle_path r none ws = err (no_watch, no_notices)
  handle_path r (some path) ws =
      let full = full_path path r.event.name in
      if ignores full
      then ok (ws, no_notices)
      else handle_mask r.event.mask r.event.wd r.time full r.dir ws

  -- The body of the loop over the events that were read.
  unfoldable pub watch_event : Reading → Watches → Outcome Stopped (Watches × Notices)
  unfolding handle_path is_ignored
  watch_event r ws =
      if is_ignored r.event.mask
      then ok (ws, no_notices)
      else handle_path r (lookup r.event.wd ws) ws

  -- All events; an exception ends the thread, and what was queued before it stays queued.
  unfoldable pub watch_events : List Reading → Watches → Outcome Stopped (Watches × Notices)
  unfolding watch_event along
  watch_events [] ws = ok (ws, no_notices)
  watch_events (r ∷ rs) ws = elim (watch_event r ws) [
    | err stopped ↦ err stopped
    | ok (more, out) ↦ along out (watch_events rs more)
  ]

-- A round of `rtevent_task`: whether RUNNING is set, the clock, and what is seen of the path.
pub record RtRound : Type 0 where
  pub running : Bool
  pub now : ℕ
  pub sight : Sight

module _ (hash : Bytes → Bytes) (unified : List Bytes → List Bytes → Bytes) (limit : ℕ) where
  -- An event waits in the queue until the settle time is over; on an empty queue the thread sleeps.
  unfoldable pub rtevent_task :
      ℕ → List RtRound → List (ℕ × Bytes × Flags) → DiffDatabase → List Item
  unfolding look_at
  rtevent_task settle [] queue diffs = []
  rtevent_task settle (r ∷ rs) [] diffs = rtevent_task settle rs [] diffs
  rtevent_task settle (r ∷ rs) ((time, path, flags) ∷ queue) diffs =
      let (item, kept) = look_at hash unified limit r.sight (path, flags) diffs in
      let taken = item ∷ rtevent_task settle rs queue kept in
      let slept = rtevent_task settle rs ((time, path, flags) ∷ queue) diffs in
      if flags.kill || not r.running
      then (none, kill_flag) ∷ []
      else if leb (time + settle) r.now
      then taken
      else slept
