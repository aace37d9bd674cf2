-- ===== src/Diskscan/Alerts.antt =====
-- The texts of the alerts of ctguard-diskscan: `alert_task` and `do_insert_set` of
-- src/diskscan/daemon.cpp. How a time is printed is a parameter.
pub mod Uninitialised
use ctguard.Base.{
  ℕ, Bool, true, false, not, ◌&&◌, ◌||◌, List, [], ◌∷◌, ◌++◌, concat, map, Bytes, codes, beq, ◌==◌,
  if◌then◌else◌, is_empty, decimal,
}
use ctguard.Research.Types.{SourceEvent}
use ctguard.Diskscan.Mode.{print_mode}
use ctguard.Diskscan.FileData.{
  FileType, directory, file, socket, link, block_device, character_device, fifo, unknown, FileData,
}

-- A row of the table `diskscan-data`, without its name and the times that nothing reads.
pub record Row : Type 0 where
  pub user : Bytes
  pub group : Bytes
  pub size : ℕ
  pub inode : ℕ
  pub mode : ℕ
  pub mtime : ℕ
  pub ctime : ℕ
  pub type : FileType
  pub sha256 : Bytes
  pub target : Bytes
  pub scanned : Bool

-- `static_cast<unsigned int>(type)`
unfoldable pub type_code : FileType → ℕ
type_code directory = 0
type_code file = 1
type_code socket = 2
type_code link = 3
type_code block_device = 4
type_code character_device = 5
type_code fifo = 6
type_code unknown = 7

unfoldable pub is_type : FileType → FileType → Bool
unfolding type_code
is_type a b = type_code a == type_code b

unfoldable pub type_text : FileType → Bytes
type_text block_device = codes "block device"
type_text character_device = codes "character device"
type_text socket = codes "socket"
type_text directory = codes "directory"
type_text fifo = codes "fifo/pipe"
type_text file = codes "regular file"
type_text link = codes "symbolic link"
type_text unknown = codes "unknown object type"

-- The tests keep an alert on one line, and without a time.
unfoldable pub one_line : Bytes → Bytes
one_line = map (λ c. if c == b'\n' then b' ' else c)

unfoldable pub log_2_se : Bool → ℕ → Bytes → Bool → Bytes → SourceEvent
unfolding one_line
log_2_se unit_test now source control message = record {
  hostname = [];
  source_program = codes "ctguard-diskscan";
  source_domain = source;
  message = if unit_test then one_line message else message;
  control_message = control;
  time_scanned = if unit_test then 0 else now;
  time_send = 0;
}

unfoldable pub field : Bytes → Bytes → Bytes
field label value = label ++ (value ++ codes "\n")

-- `if (test) { alert << …; }`
unfoldable pub optional : Bool → Bytes → Bytes
optional test text = if test then text else []

unfoldable pub bool_text : Bool → Bytes
bool_text true = codes "true"
bool_text false = codes "false"

-- A line of an alert about a change, and whether it is a reason for the alert.
pub record Note : Type 0 where
  pub counts : Bool
  pub text : Bytes

unfoldable pub note : Bool → Bool → Bytes → List Note
note test counts text = if test then record { counts = counts; text = text } ∷ [] else []

unfoldable pub from_to : Bytes → Bytes → Bytes → Bytes → Bytes
from_to label old new end =
    concat (label ∷ codes " changed from '" ∷ old ∷ codes "' to '" ∷ new ∷ end ∷ [])

abbrev quote_end : Bytes
quote_end = codes "'\n"

unfoldable pub any_counts : List Note → Bool
any_counts [] = false
any_counts (n ∷ ns) = n.counts || any_counts ns

unfoldable pub deleted_object : FileData → Row → Bytes
unfolding field type_text
deleted_object fd row = concat (
    codes "ALERT: object deleted\n"
    ∷ field (codes "Path:            ") fd.path
    ∷ field (codes "Type:            ") (type_text row.type)
    ∷ codes "ALERT END"
    ∷ [])

module _ (unit_test : Bool) (time_text : ℕ → Bytes) where
  -- What a new object's alert says before and behind the checksum.
  unfoldable pub new_start : FileData → Bytes
  unfolding field optional print_mode decimal
  new_start fd = concat (
      codes "ALERT: New object\n"
      ∷ field (codes "Path:            ") fd.path
      ∷ field (codes "User:            ") fd.user
      ∷ field (codes "Group:           ") fd.group
      ∷ field (codes "Size (in bytes): ") (decimal fd.size)
      ∷ field (codes "Mode:            ") (print_mode fd.mode)
      ∷ optional (not unit_test) (
          concat (
            field (codes "Inode:           ") (decimal fd.inode)
            ∷ field (codes "Mtime:           ") (time_text fd.mtime)
            ∷ field (codes "Ctime:           ") (time_text fd.ctime)
            ∷ []))
      ∷ [])

  unfoldable pub new_end : FileData → Bytes
  unfolding field optional type_text bool_text is_type
  new_end fd = concat (
      optional (is_type fd.type link) (
        field (codes "Target:          ") fd.target
        ++ field (codes "Valid:           ") (bool_text (not fd.dead_lnk)))
      ∷ field (codes "Type:            ") (type_text fd.type)
      ∷ codes "ALERT END"
      ∷ [])

  unfoldable pub new_object : FileData → Bytes
  unfolding field optional is_type
  new_object fd =
      new_start fd
      ++ (optional (is_type fd.type file) (field (codes "SHA256 checksum: ") fd.sha256)
          ++ new_end fd)

  -- The comparison with the row, one attribute after the other.
  unfoldable pub differences : Row → FileData → List Note
  unfolding note from_to is_type print_mode decimal type_text
  differences row fd = concat (
      note (not (beq row.user fd.user)) true (from_to (codes "User") row.user fd.user quote_end)
      ∷ note (not (beq row.group fd.group)) true
          (from_to (codes "Group") row.group fd.group quote_end)
      ∷ note (not (row.size == fd.size)) true
          (from_to (codes "Size") (decimal row.size) (decimal fd.size) (codes "' bytes\n"))
      ∷ note (not (row.mode == fd.mode)) true
          (from_to (codes "Mode") (print_mode row.mode) (print_mode fd.mode) quote_end)
      ∷ note (not (row.inode == fd.inode) && not unit_test) false
          (from_to (codes "Inode") (decimal row.inode) (decimal fd.inode) quote_end)
      ∷ note (not (row.mtime == fd.mtime) && not unit_test) false
          (from_to (codes "Mtime") (time_text row.mtime) (time_text fd.mtime) quote_end)
      ∷ note (not (row.ctime == fd.ctime) && not unit_test) false
          (from_to (codes "Ctime") (time_text row.ctime) (time_text fd.ctime) quote_end)
      ∷ note (is_type fd.type file && fd.content_checked && not (beq fd.sha256 row.sha256)) true
          (from_to (codes "SHA256 checksum") row.sha256 fd.sha256 quote_end)
      ∷ note (is_type fd.type link && (fd.content_checked && not (beq row.target fd.target))) true
          (from_to (codes "Target") row.target fd.target quote_end)
      ∷ note (not (is_type row.type fd.type)) true
          (from_to (codes "Type") (type_text row.type) (type_text fd.type) quote_end)
      ∷ [])

  unfoldable pub changed_object : Row → FileData → Bytes
  unfolding field optional differences type_text is_empty
  changed_object row fd = concat (
      codes "ALERT: object changed\n"
      ∷ field (codes "Path:            ") fd.path
      ∷ field (codes "Type:            ") (type_text fd.type)
      ∷ concat (map (λ (n : Note). n.text) (differences row fd))
      ∷ optional (not (is_empty fd.diff)) (codes "Start Diff\n" ++ (fd.diff ++ codes "End Diff\n"))
      ∷ codes "ALERT END"
      ∷ [])

  unfoldable pub is_changed : Row → FileData → Bool
  unfolding any_counts differences
  is_changed row fd = any_counts (differences row fd)
