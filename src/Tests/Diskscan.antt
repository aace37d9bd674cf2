-- ===== src/Tests/Diskscan.antt =====
-- Files that are watched, and the theorems about ctguard-diskscan applied.
use ctguard.Base.{
  ℕ, ◌≡◌, ◌≢◌, refl, ◌↔◌, Bool, true, false, List, [], ◌∷◌, ◌++◌, concat, Option, none, some, Bytes,
  codes, is_empty, lookup, contains, nat_key, text_key, Post, arith, beq, ok, emplace,
}
use ctguard.Diskscan.Flags.{Flags, no_flags, is_special}
use ctguard.Diskscan.Mode.{print_mode, format_of}
use ctguard.Diskscan.Mode.RoundTrip.{read_mode, read_mode-print_mode, formats}
use ctguard.Diskscan.FileData.{
  FileData, Stat, Sight, DiffDatabase, construct, found_file, link, file,
}
use ctguard.Diskscan.FileData.Contents.{IsTextFile, Seen, second_look}
use ctguard.Diskscan.Alerts.{Row, new_object, new_start, new_end, field, is_changed}
use ctguard.Diskscan.Alerts.Uninitialised.{new_object-memory}
use ctguard.Diskscan.Alerter.{
  Alerter, Round, fresh_alerter, unscanned, alert_round, alert_task, handle_found, full_update,
}
use ctguard.Diskscan.Alerter.Unique.{Never, alert_task_unique}
use ctguard.Diskscan.Alerter.Agrees.{Knows, report, report_twice}
use ctguard.Diskscan.Alerter.Scanned.{mid_round}
use ctguard.Diskscan.Alerter.Forgotten.{target_forgotten}
use ctguard.Diskscan.Config.{Watch, full}
use ctguard.Diskscan.Scan.{Dir, nil, failed, entry, scan, event_task, child_path}
use ctguard.Diskscan.Scan.Below.{IsBelow, IsScanned, scan-IsBelow}
use ctguard.Diskscan.Finished.{event_rounds, alert_rounds, Ends, scan_finishes}
use ctguard.Diskscan.Realtime.{
  modify, moved_to_dir, Reading, watch_event, watch_events, content_flags, with_diff, Notices,
  no_notices, handle_path, handle_mask, told, new_directory, along, add_watch, add_inner,
  is_ignored, full_path,
}
use ctguard.Diskscan.Realtime.Renamed.{first_path_stays}
use ctguard.Tests.Rules.{ok_or}

-- Stand-ins for SHA-256, for the difference of two texts and for the printing of times.
abbrev hash : Bytes → Bytes
hash text = 120 ∷ text

abbrev unified : List Bytes → List Bytes → Bytes
unified old new = concat old ++ (b'>' ∷ concat new)

abbrev time_text : ℕ → Bytes
time_text t = codes "now"

-- -rwsr-xr-x
setuid_program : contains (format_of 35309) formats ≡ true
unfolding contains format_of
setuid_program = refl

printed : print_mode 35309 ≡ codes "-rwsr-xr-x"
unfolding print_mode
printed = refl

read_mode-print_mode_example : read_mode (print_mode 35309) ≡ 35309
read_mode-print_mode_example = read_mode-print_mode 35309 (omega arith) setuid_program

abbrev status : ℕ → Stat
status mode = record { st_mode = mode; st_size = 4; st_ino = 9; st_mtime = 1; st_ctime = 2 }

abbrev sight_of : List Bytes → Sight
sight_of chunks = record {
  memory = codes "secret";
  stat = some (status 33188);
  user_name = some (codes "root");
  group_name = none;
  opened = true;
  chunks = chunks;
  read_well = true;
  target_found = true;
  link_text = none;
}

abbrev path : Bytes
path = codes "/etc/a"

path_stands : is_empty path ≡ false
unfolding is_empty
path_stands = refl

regular : format_of 33188 ≡ 8
unfolding format_of
regular = refl

text_file : (n : ℕ) → (b'0' ≡ n) → IsTextFile 100 (sight_of ((n ∷ 10 ∷ []) ∷ []))
unfolding contains
text_file n e = record {
  status = status 33188;
  found = refl;
  regular = regular;
  small = refl;
  opened = refl;
  read_well = refl;
  text = (rw (← e) refl, tt);
}

abbrev zero_line : Sight
zero_line = sight_of ((b'0' ∷ 10 ∷ []) ∷ [])

second_look_example :
    (fd : FileData) × (kept : DiffDatabase) × (construct hash unified 100 zero_line path true true
        (construct hash unified 100 zero_line path true true []).1
      ≡ (some fd, kept))
    × Seen hash unified 100 (concat zero_line.chunks) (concat zero_line.chunks) fd
second_look_example =
    second_look hash unified 100 zero_line zero_line path [] (text_file b'0' refl)
      (text_file b'0' refl) path_stands

abbrev hidden : Sight
hidden = record zero_line { opened = false }

new_object-memory_example :
    (fd : FileData) × (construct hash unified 100 hidden path true false [] ≡ (some fd, []))
    × (new_object false time_text fd
        ≡ new_start false time_text fd
          ++ (field (codes "SHA256 checksum: ") (codes "secret") ++ new_end false time_text fd))
new_object-memory_example =
    new_object-memory hash unified 100 false time_text hidden path false (status 33188) [] refl
      regular refl path_stands

abbrev seen : FileData
seen = record {
  exists = true;
  content_checked = true;
  path = path;
  user = codes "root";
  group = codes "root";
  size = 4;
  type = file;
  sha256 = codes "abc";
  target = [];
  dead_lnk = false;
  inode = 9;
  mode = 33188;
  mtime = 1;
  ctime = 2;
  diff = [];
}

abbrev row : Row
row = record {
  user = codes "root";
  group = codes "root";
  size = 3;
  inode = 9;
  mode = 33188;
  mtime = 1;
  ctime = 2;
  type = file;
  sha256 = codes "abc";
  target = [];
  scanned = false;
}

abbrev known : Alerter
known = record (fresh_alerter ((path, row) ∷ [])) { in_scan = false }

abbrev forced : Flags
forced = record no_flags { chk_content = true; force_update = true }

plain : (is_special forced ≡ false) × (is_special no_flags ≡ false)
unfolding is_special
plain = (refl, refl)

report_twice_example :
    Post Never
      (λ first.
        Knows first.0.db seen
        × Post Never
            (λ second. second.1.events ≡ [])
            (alert_round false time_text 2 (report 6 no_flags seen) first.0))
      (alert_round false time_text 2 (report 5 forced seen) known)
report_twice_example =
    report_twice false time_text 2 5 6 forced no_flags seen known refl refl plain.0 plain.1

abbrev start_round : Round
start_round = record {
  running = true;
  item = none;
  flags = record no_flags { startscan = true };
  now = 1;
}

abbrev other_file : FileData
other_file = record seen { path = codes "/etc/b" }

alert_task_unique_example :
    (alert_task false time_text 9
      (start_round
        ∷ report 2 forced other_file
        ∷ report 2 forced other_file
        ∷ mid_round 3
        ∷ report 4 forced other_file
        ∷ [])
      (fresh_alerter ((path, row) ∷ []))).failed
    ≡ false
alert_task_unique_example =
    alert_task_unique false time_text 9
      (start_round
        ∷ report 2 forced other_file
        ∷ report 2 forced other_file
        ∷ mid_round 3
        ∷ report 4 forced other_file
        ∷ [])
      ((path, row) ∷ [])

abbrev look : Bytes → Sight
look p = zero_line

asked : unscanned known.db ≡ path ∷ []
unfolding unscanned
asked = refl

scan_finishes_example : Ends false time_text 9 (
    alert_task false time_text 9
      (mid_round 5
        ∷ alert_rounds 5 (
            event_task hash unified 100
              (event_rounds look (alert_task false time_text 9 (mid_round 5 ∷ []) known).requests)
              []))
      known)
scan_finishes_example =
    scan_finishes false time_text 9 hash unified 100 look 5 [] known ((λ e. refl), (tt, tt))
      (rw asked (path_stands, tt))

abbrev link_row : Row
link_row = record row { type = link; target = codes "b" }

abbrev link_sight : Sight
link_sight = record zero_line { stat = some (status 41471); user_name = some (codes "eve") }

abbrev link_seen : FileData
link_seen = record seen { type = link; target = codes "b"; user = codes "eve" }

abbrev links : Alerter
links = fresh_alerter ((path, link_row) ∷ [])

link_known : lookup path links.db ≡ some link_row
unfolding lookup beq
link_known = refl

other_user : link_row.user ≢ (found_file link_sight path (status 41471)).user
unfolding found_file
other_user e = cc

target_forgotten_example :
    (construct hash unified 100 link_sight path false false []
      ≡ (some (found_file link_sight path (status 41471)), []))
    × (lookup path
          (handle_found false time_text 9 7 no_flags
            (found_file link_sight path (status 41471))
            link_row
            links).0.db
        ≡ some (full_update (found_file link_sight path (status 41471)) link_row))
    × (is_changed false time_text
          (full_update (found_file link_sight path (status 41471)) link_row)
          link_seen
        ≡ true)
target_forgotten_example =
    target_forgotten false time_text 9 hash unified 100 7 link_sight path (status 41471) [] link_row
      links link_seen refl path_stands link_known other_user (λ e. cc) refl refl refl

abbrev tree : Dir
tree =
    entry (codes ".") true nil (
      entry (codes "d") true (entry (codes "f") false nil failed) (entry (codes "g") false nil nil))

scan-IsBelow_example :
    IsScanned false (codes "/d/f") (scan true false [] tree) ↔ IsBelow [] tree (codes "/d/f")
scan-IsBelow_example = scan-IsBelow false [] tree (codes "/d/f")

abbrev watched : Watch
watched = record {
  path = codes "/w";
  option = full;
  recursive = true;
  realtime = true;
  check_diff = false;
}

abbrev descriptor : Bytes → Option ℕ
descriptor p = some 2

abbrev nothing_ignored : Bytes → Bool
nothing_ignored p = false

-- `/w/a` is renamed to `/w/b`, and then `/w/b/f` is changed.
abbrev moved : Reading
moved = record {
  event = record { wd = 1; mask = moved_to_dir; name = some (codes "b") };
  time = 5;
  dir = nil;
}

abbrev changed : Reading
changed = record {
  event = record { wd = 2; mask = modify; name = some (codes "f") };
  time = 6;
  dir = nil;
}

abbrev watches : List (ℕ × Bytes)
watches = (1, codes "/w") ∷ (2, codes "/w/a") ∷ []

two_watched : lookup 2 watches ≡ some (codes "/w/a")
unfolding lookup
two_watched = refl

abbrev after_move : List (ℕ × Bytes) × Notices
after_move =
    ok_or (watches, no_notices)
      (watch_events descriptor nothing_ignored watched (moved ∷ []) watches)

moved_well : watch_events descriptor nothing_ignored watched (moved ∷ []) watches ≡ ok after_move
unfolding watch_events watch_event handle_path handle_mask told new_directory along add_watch
    add_inner lookup emplace is_ignored full_path child_path
moved_well = refl

first_path_stays_example :
    watch_event descriptor nothing_ignored watched changed after_move.0
    ≡ ok (
      after_move.0,
      record {
        events =
            (
              6,
              child_path (codes "/w/a") (codes "f"),
              with_diff descriptor nothing_ignored watched content_flags,
            )
            ∷ [];
        scans = [];
      },
    )
first_path_stays_example =
    first_path_stays descriptor 2 (codes "/w/a") nothing_ignored watched (moved ∷ []) watches
      after_move.0 after_move.1 changed (codes "f") ((λ h. cc), tt) two_watched moved_well refl refl
      refl refl
