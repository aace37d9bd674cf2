-- ===== src/Diskscan/Alerter.antt =====
-- `alert_task` of src/diskscan/daemon.cpp: what is found is held against the database. The database
-- is a list of rows by name; its statements do what they say and do not fail, but that no two rows
-- may have one name.
pub mod Unique
pub mod Agrees
pub mod Phases
pub mod Scanned
pub mod Forgotten
use ctguard.Base.{
  ℕ, Bool, true, false, not, ◌&&◌, ◌||◌, List, [], ◌∷◌, ◌++◌, map, Option, none, some, Bytes, codes,
  if◌then◌else◌, is_empty, length, leb, lookup, assign, remove_key, text_key, Outcome, ok, err,
  ◌>>=◌,
}
use ctguard.Research.Types.{SourceEvent}
use ctguard.Diskscan.Flags.{Flags, no_flags, endscan_flag}
use ctguard.Diskscan.FileData.{FileData}
use ctguard.Diskscan.Alerts.{Row, log_2_se, new_object, changed_object, deleted_object, is_changed}

abbrev pub Database : Type 0
Database = List (Bytes × Row)

-- The constraint `UNIQUE` of the column `name`.
pub data DbError : Type 0 where
  not_unique : DbError

-- `std::set<file_data>` by path; `update_queue` is a queue of paths.
pub record Alerter : Type 0 where
  pub db : Database
  pub in_scan : Bool
  pub insert_set : List (Bytes × FileData)
  pub update_queue : List Bytes

abbrev pub fresh_alerter : Database → Alerter
fresh_alerter db = record { db = db; in_scan = false; insert_set = []; update_queue = [] }

-- What a round gives to the output queue and to the event queue, and whether `scan_is_running`
-- becomes false.
pub record Effects : Type 0 where
  pub events : List SourceEvent
  pub requests : List (Bytes × Flags)
  pub finished : Bool

abbrev pub quiet : Effects
quiet = record { events = []; requests = []; finished = false }

abbrev pub sends : List SourceEvent → Effects
sends es = record quiet { events = es }

abbrev pub Step : Type 0
Step = Outcome DbError (Alerter × Effects)

-- The statements.
unfoldable pub row_of : FileData → Row
row_of fd = record {
  user = fd.user;
  group = fd.group;
  size = fd.size;
  inode = fd.inode;
  mode = fd.mode;
  mtime = fd.mtime;
  ctime = fd.ctime;
  type = fd.type;
  sha256 = if fd.content_checked then fd.sha256 else codes "not computed";
  target = fd.target;
  scanned = true;
}

unfoldable pub insert_row : Bytes → Row → Database → Outcome DbError Database
insert_row name row db = elim (lookup name db) [
  | none ↦ ok (assign name row db)
  | some r ↦ err not_unique
]

unfoldable pub update_row : Bytes → (Row → Row) → Database → Database
update_row name change db = elim (lookup name db) [ none ↦ db | some r ↦ assign name (change r) db ]

unfoldable pub full_update : FileData → Row → Row
unfolding row_of
full_update fd row = record (row_of fd) {
  sha256 = if fd.content_checked then fd.sha256 else row.sha256;
}

abbrev pub mark : Row → Row
mark row = record row { scanned = true }

-- `UPDATE … SET scanned = 0`
unfoldable pub unmark_all : Database → Database
unmark_all [] = []
unmark_all ((name, row) ∷ db) = (name, record row { scanned = false }) ∷ unmark_all db

-- `SELECT name … WHERE scanned = 0`
unfoldable pub unscanned : Database → List Bytes
unscanned [] = []
unscanned ((name, row) ∷ db) = let rest = unscanned db in if row.scanned then rest else name ∷ rest

-- `do_update_queue`
unfoldable pub do_update_queue : List Bytes → Database → Database
unfolding update_row
do_update_queue [] db = db
do_update_queue (path ∷ paths) db = do_update_queue paths (update_row path mark db)

-- An event of phase 2.
unfoldable pub phase_2 : Bytes → Bytes × Flags
phase_2 name = (name, record no_flags { chk_content = true; force_update = true })

-- `se.control_message = true; se.message = "!KILL";`
abbrev pub kill_message : SourceEvent
kill_message = record {
  hostname = [];
  source_program = [];
  source_domain = [];
  message = codes "!KILL";
  control_message = true;
  time_scanned = 0;
  time_send = 0;
}

-- What the task meets: whether RUNNING is set, what stands in the queue, and one reading of the clock.
pub record Round : Type 0 where
  pub running : Bool
  pub item : Option FileData
  pub flags : Flags
  pub now : ℕ

-- What the task leaves: its state, all that it sent, and whether it ended by an exception.
pub record Run : Type 0 where
  pub last : Alerter
  pub events : List SourceEvent
  pub requests : List (Bytes × Flags)
  pub finished : Bool
  pub failed : Bool

abbrev pub before : Effects → Run → Run
before e run = record run {
  events = e.events ++ run.events;
  requests = e.requests ++ run.requests;
  finished = e.finished || run.finished;
}

abbrev pub stopped : List SourceEvent → Bool → Alerter → Run
stopped events failed a = record {
  last = a;
  events = events;
  requests = [];
  finished = false;
  failed = failed;
}

module _ (unit_test : Bool) (time_text : ℕ → Bytes) (block_size : ℕ) where
  -- `do_insert_set`
  unfoldable pub do_insert_set :
      ℕ → List (Bytes × FileData) → Database → Outcome DbError (Database × List SourceEvent)
  unfolding insert_row row_of log_2_se
  do_insert_set now [] db = ok (db, [])
  do_insert_set now ((path, fd) ∷ set) db = do
    more ← insert_row fd.path (row_of fd) db
    rest ← do_insert_set now set more
    ok (rest.0, log_2_se unit_test now fd.path false (new_object unit_test time_text fd) ∷ rest.1)

  unfoldable pub flush_inserts : ℕ → Alerter → Step
  unfolding do_insert_set
  flush_inserts now a = do
    done ← do_insert_set now a.insert_set a.db
    ok (record a { db = done.0; insert_set = [] }, sends done.1)

  -- STARTSCAN
  unfoldable pub start_scan : Alerter → Alerter
  unfolding unmark_all
  start_scan a = record a { db = unmark_all a.db; in_scan = true }

  -- MIDSCAN
  unfoldable pub mid_scan : ℕ → Alerter → Step
  unfolding unscanned phase_2 flush_inserts do_update_queue
  mid_scan now a = do
    let requests = map phase_2 (unscanned a.db) ++ (([], endscan_flag) ∷ [])
    done ← flush_inserts now (record a { in_scan = false })
    let left = done.0
    ok (
      record left { db = do_update_queue left.update_queue left.db; update_queue = [] },
      record (done.1) { requests = requests },
    )

  -- A row that nothing has changed, for an event with FORCE_UPDATE.
  unfoldable pub confirm : Bytes → Alerter → Alerter
  unfolding update_row do_update_queue
  confirm path a =
      let queue = a.update_queue ++ (path ∷ []) in
      if not a.in_scan
      then record a { db = update_row path mark a.db }
      else if leb block_size (length queue)
      then record a { db = do_update_queue queue a.db; update_queue = [] }
      else record a { update_queue = queue }

  unfoldable pub handle_found : ℕ → Flags → FileData → Row → Alerter → Alerter × Effects
  unfolding update_row full_update log_2_se confirm
  handle_found now flags fd row a =
      if fd.exists
      then (if is_changed unit_test time_text row fd
          then (
            record a { db = update_row fd.path (full_update fd) a.db },
            sends (
                log_2_se unit_test now fd.path false (changed_object unit_test time_text row fd)
                ∷ []),
          )
          else if flags.force_update
          then (confirm fd.path a, quiet)
          else (a, quiet))
      else (
        record a { db = remove_key fd.path a.db },
        sends (log_2_se unit_test now fd.path false (deleted_object fd row) ∷ []),
      )

  -- An object with no row: in a scan it waits in the set.
  unfoldable pub handle_new : ℕ → FileData → Alerter → Step
  unfolding insert_row row_of log_2_se flush_inserts
  handle_new now fd a =
      let set = assign fd.path fd a.insert_set in
      if not a.in_scan
      then (do
        db ← insert_row fd.path (row_of fd) a.db
        ok (
          record a { db = db },
          sends (log_2_se unit_test now fd.path false (new_object unit_test time_text fd) ∷ []),
        ))
      else if leb block_size (length set)
      then flush_inserts now (record a { insert_set = set })
      else ok (record a { insert_set = set }, quiet)

  unfoldable pub handle_row : ℕ → Flags → FileData → Option Row → Alerter → Step
  unfolding handle_found handle_new
  handle_row now flags fd (some row) a = ok (handle_found now flags fd row a)
  handle_row now flags fd none a = if fd.exists then handle_new now fd a else ok (a, quiet)

  unfoldable pub handle_item : ℕ → Flags → Option FileData → Alerter → Step
  unfolding handle_row
  handle_item now flags none a = ok (a, quiet)
  handle_item now flags (some fd) a = handle_row now flags fd (lookup fd.path a.db) a

  -- A round, but for the stop event.
  unfoldable pub alert_round : Round → Alerter → Step
  unfolding start_scan mid_scan handle_item
  alert_round r a =
      if r.flags.startscan
      then ok (start_scan a, quiet)
      else if r.flags.midscan
      then mid_scan r.now a
      else if r.flags.endscan
      then ok (a, record quiet { finished = true })
      else handle_item r.now r.flags r.item a

  -- At an exception, what its own round had sent before it is left out.
  unfoldable pub alert_task : List Round → Alerter → Run
  unfolding alert_round
  alert_task [] a = stopped [] false a
  alert_task (r ∷ rs) a =
      if r.flags.kill || not r.running
      then stopped (kill_message ∷ []) false a
      else elim (alert_round r a) [
        | err e ↦ stopped (kill_message ∷ []) true a
        | ok (next, effects) ↦ before effects (alert_task rs next)
      ]
