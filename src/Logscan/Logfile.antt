-- ===== src/Logscan/Logfile.antt =====
-- One file that is followed: src/logscan/logfile.hpp, and the body of the loops over the files in
-- `logfile_task` of src/logscan/daemon.cpp. What the system shows of the file is a `Look`: one
-- reading of the clock, whether `open` succeeds, what `stat` gives, and what the stream holds.
pub mod Steps
pub mod Reading
pub mod Follows
pub mod Unfinished
use ctguard.Base.{
  ℕ, zero, suc, ◌+◌, ◌^◌, ◌-◌, Bool, true, false, not, ◌&&◌, ◌||◌, List, [], ◌∷◌, ◌++◌, map, Option,
  none, some, Bytes, codes, beq, ◌==◌, ltb, leb, if◌then◌else◌, is_empty,
}
use ctguard.Research.Types.{SourceEvent}
use ctguard.Logscan.Config.{LogfileConfig}

-- `m_fd` counts as whether it is open, and -1 as no position and no size.
pub record Logfile : Type 0 where
  pub config : LogfileConfig
  pub fd : Bool
  pub position : Option ℕ
  pub inode : ℕ
  pub size : Option ℕ
  pub down : Bool
  pub last_updated : ℕ
  pub timeout_triggered : Bool

abbrev pub new_logfile : LogfileConfig → Logfile
new_logfile lc = record {
  config = lc;
  fd = false;
  position = some 0;
  inode = 2 ^ 64 - 1;
  size = none;
  down = false;
  last_updated = 0;
  timeout_triggered = false;
}

pub record Look : Type 0 where
  pub now : ℕ
  pub opened : Bool
  pub stat : Option (ℕ × ℕ)
  pub reopened : Bool
  pub stream : Option Bytes

-- `unit_test` keeps the time out of the event.
unfoldable pub log_2_se : Bool → ℕ → Bytes → Bool → Bytes → SourceEvent
log_2_se unit_test now source control message = record {
  hostname = [];
  source_program = codes "ctguard-logscan";
  source_domain = source;
  message = message;
  control_message = control;
  time_scanned = if unit_test then 0 else now;
  time_send = 0;
}

-- A saved position: `unsigned long long` to `pos_type`, where the highest number is -1.
unfoldable pub position_of : ℕ → Option ℕ
position_of n = if n == 2 ^ 64 - 1 then none else some n

-- What is queued, the file, and whether the body goes on.
abbrev pub Scan : Type 0
Scan = List SourceEvent × Logfile × Bool

unfoldable pub and_then : Scan → (Logfile → Scan) → Scan
and_then (out, ls, false) next = (out, ls, false)
and_then (out, ls, true) next = let (more, last, go) = next ls in (out ++ more, last, go)

-- `st_size == get_size()` and `st_size < get_size()`
unfoldable pub same_size : ℕ → Option ℕ → Bool
same_size n none = false
same_size n (some m) = n == m

unfoldable pub smaller : ℕ → Option ℕ → Bool
smaller n none = false
smaller n (some m) = ltb n m

-- The loop of `getline`: with the last position and the current one, the line so far and the rest of
-- the stream, the lines that are not empty, and the position that was set last. A line that the
-- stream ends in, without a newline, leaves the stream failed, and `tellg` gives -1.
unfoldable pub read_lines : Option ℕ → ℕ → Bytes → Bytes → List Bytes × Option ℕ
unfolding is_empty
read_lines last p line [] = if is_empty line then ([], last) else (line ∷ [], none)
read_lines last p line (c ∷ cs) =
    let skipped = read_lines last (suc p) [] cs in
    let (more, end) = read_lines (some (suc p)) (suc p) [] cs in
    let longer = read_lines last (suc p) (line ++ (c ∷ [])) cs in
    if c == b'\n' then (if is_empty line then skipped else (line ∷ more, end)) else longer

-- `seekg`
unfoldable pub seek : ℕ → Bytes → Bytes
seek zero bytes = bytes
seek (suc n) [] = []
seek (suc n) (c ∷ cs) = seek n cs

module _ (unit_test : Bool) (look : Look) where
  unfoldable pub notice : Logfile → Bytes → SourceEvent
  unfolding log_2_se
  notice ls text = log_2_se unit_test look.now ls.config.path true text

  -- Whether the warning is due.
  unfoldable pub is_late : Logfile → Bool
  is_late ls =
      not (ls.config.timeout_alert == 0)
      && not ls.timeout_triggered
      && leb (ls.last_updated + ls.config.timeout_alert) look.now

  unfoldable pub check_timeout : Logfile → Scan
  unfolding notice is_late
  check_timeout ls =
      if is_late ls
      then (notice ls (codes "!Timeout alert") ∷ [], record ls { timeout_triggered = true }, true)
      else ([], ls, true)

  unfoldable pub revive : Logfile → Scan
  unfolding notice
  revive ls =
      if not ls.fd || ls.down
      then (if look.opened
          then (
            notice ls (codes "!File coming alive") ∷ [],
            record ls { fd = true; down = false; timeout_triggered = false },
            true,
          )
          else ([], record ls { fd = false }, false))
      else ([], ls, true)

  unfoldable pub check_inode : ℕ → Logfile → Scan
  unfolding notice
  check_inode inode ls =
      if inode == ls.inode
      then ([], ls, true)
      else if look.reopened
      then (
        notice ls (codes "!File got replaced") ∷ [],
        record ls { inode = inode; position = some 0; fd = true },
        true,
      )
      else (
        notice ls (codes "!File got replaced") ∷ notice ls (codes "!File went down") ∷ [],
        record ls { inode = inode; position = some 0; fd = false },
        false,
      )

  unfoldable pub check_size : ℕ → Logfile → Scan
  unfolding notice same_size smaller
  check_size size ls =
      if same_size size ls.size
      then ([], ls, false)
      else if smaller size ls.size
      then (
        notice ls (codes "!File truncated") ∷ [],
        record ls { position = some 0; size = some size },
        true,
      )
      else ([], record ls { size = some size }, true)

  -- The lines from the last position on. There is no seeking to the position -1.
  unfoldable pub read_from : Logfile → Bytes → Option ℕ → Scan
  unfolding read_lines seek log_2_se is_empty
  read_from ls content none = ([], ls, false)
  read_from ls content (some p) =
      let (lines, end) = read_lines (some p) p [] (seek p content) in
      (
        map (log_2_se unit_test look.now ls.config.path false) lines,
        record ls {
          position = end;
          last_updated = if is_empty lines then ls.last_updated else look.now;
          timeout_triggered = if is_empty lines then ls.timeout_triggered else false;
        },
        true,
      )

  unfoldable pub read_stream : Option Bytes → Logfile → Scan
  unfolding read_from
  read_stream none ls = ([], ls, false)
  read_stream (some content) ls = read_from ls content ls.position

  unfoldable pub check_stat : Option (ℕ × ℕ) → Logfile → Scan
  unfolding notice check_inode check_size read_stream and_then
  check_stat none ls = (notice ls (codes "!File went down") ∷ [], record ls { down = true }, false)
  check_stat (some (inode, size)) ls =
      and_then (check_inode inode ls)
        (λ found. and_then (check_size size found) (read_stream look.stream))

  -- The body of the loop over the files.
  unfoldable pub scan_file : Logfile → List SourceEvent × Logfile
  unfolding check_timeout revive check_stat and_then
  scan_file ls =
      let (out, last, go) =
        and_then (check_timeout ls) (λ found. and_then (revive found) (check_stat look.stat)) in
      (out, last)

  -- The loop over the saved states, with `found_saved_state`.
  unfoldable pub restore :
      ℕ → List (Bytes × ℕ × ℕ) → Bool → Logfile → List SourceEvent × Logfile × Bool
  unfolding notice beq
  restore inode [] found ls = ([], ls, found)
  restore inode ((path, sinode, spos) ∷ saved) found ls =
      let (out, last, any) = restore inode saved true (record ls { position = some 0 }) in
      let kept = restore inode saved true (record ls { position = position_of spos }) in
      let other = restore inode saved found ls in
      if beq path ls.config.path
      then (if inode == sinode
          then kept
          else (notice ls (codes "!File got replaced") ∷ out, last, any))
      else other

  -- How the state of a file starts.
  unfoldable pub open_stat :
      List (Bytes × ℕ × ℕ) → Logfile → Option (ℕ × ℕ) → List SourceEvent × Logfile
  unfolding restore
  open_stat saved ls none = ([], record ls { down = true })
  open_stat saved ls (some (inode, size)) =
      let (out, kept, found) = restore inode saved false ls in
      (
        out,
        record kept {
          inode = inode;
          size = some size;
          position = if found then kept.position else some size;
          last_updated = look.now;
        },
      )

  unfoldable pub open_file : List (Bytes × ℕ × ℕ) → LogfileConfig → List SourceEvent × Logfile
  unfolding open_stat
  open_file saved lc =
      if look.opened
      then open_stat saved (record (new_logfile lc) { fd = true }) look.stat
      else ([], record (new_logfile lc) { down = true })

-- The loop `while (RUNNING)`, for one file.
unfoldable pub follow : Bool → List Look → Logfile → List SourceEvent × Logfile
unfolding scan_file
follow unit_test [] ls = ([], ls)
follow unit_test (look ∷ looks) ls =
    let (out, next) = scan_file unit_test look ls in
    let (more, last) = follow unit_test looks next in (out ++ more, last)
