-- ===== src/Diskscan/FileData.antt =====
-- `file_data` and `file_data_factory::construct` (src/diskscan/filedata.hpp, filedata.cpp): what the
-- system shows of a path is a `Sight`. SHA-256 and the unified difference of dtl are parameters.
pub mod Contents
use ctguard.Base.{
  ℕ, Bool, true, false, not, ◌&&◌, List, [], ◌∷◌, ◌++◌, concat, Option, none, some, Bytes, codes,
  ltb, ◌==◌, if◌then◌else◌, is_empty, contains, lookup, assign, nat_key, text_key, zero, suc,
}
use ctguard.Research.Text.{split}
use ctguard.Diskscan.Mode.{format_of}

-- `file_data::type`
pub data FileType : Type 0 where
  directory file socket link block_device character_device fifo unknown : FileType

-- `sha256` is the array without its last character. It is not set before it is written: until then
-- it holds what the memory held.
pub record FileData : Type 0 where
  pub exists : Bool
  pub content_checked : Bool
  pub path : Bytes
  pub user : Bytes
  pub group : Bytes
  pub size : ℕ
  pub type : FileType
  pub sha256 : Bytes
  pub target : Bytes
  pub dead_lnk : Bool
  pub inode : ℕ
  pub mode : ℕ
  pub mtime : ℕ
  pub ctime : ℕ
  pub diff : Bytes

-- `struct stat`
pub record Stat : Type 0 where
  pub st_mode : ℕ
  pub st_size : ℕ
  pub st_ino : ℕ
  pub st_mtime : ℕ
  pub st_ctime : ℕ

-- The results of the calls that `construct` makes, and what the memory of the new object held:
-- `lstat`, the names of the owner and of the group, `open`, what each `read` gives and whether the
-- last one succeeds, `stat` and `readlink`.
pub record Sight : Type 0 where
  pub memory : Bytes
  pub stat : Option Stat
  pub user_name : Option Bytes
  pub group_name : Option Bytes
  pub opened : Bool
  pub chunks : List Bytes
  pub read_well : Bool
  pub target_found : Bool
  pub link_text : Option Bytes

-- The contents of files, by path.
abbrev pub DiffDatabase : Type 0
DiffDatabase = List (Bytes × Bytes)

-- `m_sha256[0] = '\0'`
unfoldable pub cut_off : Bytes → Bytes
cut_off [] = []
cut_off (c ∷ cs) = 0 ∷ cs

unfoldable pub missing_file : Bytes → Bytes → FileData
unfolding cut_off
missing_file memory path = record {
  exists = false;
  content_checked = true;
  path = path;
  user = codes "null";
  group = codes "null";
  size = 0;
  type = unknown;
  sha256 = cut_off memory;
  target = [];
  dead_lnk = false;
  inode = 0;
  mode = 0;
  mtime = 0;
  ctime = 0;
  diff = [];
}

unfoldable pub type_of : ℕ → FileType
type_of f =
    if f == 6
    then block_device
    else if f == 2
    then character_device
    else if f == 4
    then directory
    else if f == 1
    then fifo
    else if f == 10
    then link
    else if f == 8
    then file
    else if f == 12
    then socket
    else unknown

unfoldable pub name_or_unknown : Option Bytes → Bytes
name_or_unknown none = codes "!unknown"
name_or_unknown (some name) = name

-- What is set before the content is looked at.
unfoldable pub found_file : Sight → Bytes → Stat → FileData
unfolding type_of name_or_unknown format_of
found_file sight path s = record {
  exists = true;
  content_checked = false;
  path = path;
  user = name_or_unknown sight.user_name;
  group = name_or_unknown sight.group_name;
  size = s.st_size;
  type = type_of (format_of s.st_mode);
  sha256 = sight.memory;
  target = [];
  dead_lnk = false;
  inode = s.st_ino;
  mode = s.st_mode;
  mtime = s.st_mtime;
  ctime = s.st_ctime;
  diff = [];
}

-- The reading loop, as far as it is about the difference: whether there will be one, and the text.
unfoldable pub gather : Bool → Bytes → List Bytes → Bool × Bytes
unfolding contains
gather compute content [] = (compute, content)
gather compute content (c ∷ cs) =
    let go = compute && not (contains 0 c) in gather go (if go then content ++ c else content) cs

-- `split(str, '\n')`
unfoldable pub split_lines : Bytes → List Bytes
unfolding split
split_lines = split b'\n'

-- `readlink` into 256 characters: the last one ends the text.
unfoldable pub take : ℕ → Bytes → Bytes
take zero text = []
take (suc n) [] = []
take (suc n) (c ∷ cs) = c ∷ take n cs

-- `db_content`
unfoldable pub stored : Bytes → DiffDatabase → Bytes
unfolding lookup
stored path diffs = elim (lookup path diffs) [ none ↦ [] | some text ↦ text ]

module _ (hash : Bytes → Bytes) (unified : List Bytes → List Bytes → Bytes) (limit : ℕ) where
  -- The stored content, and the difference to it.
  unfoldable pub compare_content : Bool → Bytes → FileData → DiffDatabase → FileData × DiffDatabase
  unfolding split_lines is_empty stored
  compare_content false content fd diffs = (fd, diffs)
  compare_content true content fd diffs =
      let old = stored fd.path diffs in
      (
        if is_empty old
            then fd
            else record fd { diff = unified (split_lines old) (split_lines content) },
        assign fd.path content diffs,
      )

  unfoldable pub check_file : Sight → Bool → FileData → DiffDatabase → FileData × DiffDatabase
  unfolding gather compare_content
  check_file sight check_diff fd diffs =
      let (compute, content) = gather (check_diff && ltb fd.size limit) [] sight.chunks in
      let hashed = record fd { sha256 = hash (concat sight.chunks) } in
      let (compared, kept) = compare_content compute content hashed diffs in
      if sight.opened && sight.read_well
      then (record compared { content_checked = true }, kept)
      else (fd, diffs)

  unfoldable pub check_link : Sight → FileData → FileData
  unfolding take
  check_link sight fd =
      let seen = record fd { dead_lnk = not sight.target_found } in
      elim sight.link_text [
        | none ↦ seen
        | some text ↦ record seen { target = take 255 text; content_checked = true }
      ]

  unfoldable pub check_type :
      Sight → Bool → FileType → FileData → DiffDatabase → FileData × DiffDatabase
  unfolding check_file check_link
  check_type sight check_diff file fd diffs = check_file sight check_diff fd diffs
  check_type sight check_diff link fd diffs = (check_link sight fd, diffs)
  check_type sight check_diff _ fd diffs = (fd, diffs)

  unfoldable pub construct_found :
      Sight → Bytes → Bool → Bool → Option Stat → DiffDatabase → FileData × DiffDatabase
  unfolding missing_file found_file check_type
  construct_found sight path check_content check_diff none diffs =
      (missing_file sight.memory path, diffs)
  construct_found sight path check_content check_diff (some s) diffs =
      let fd = found_file sight path s in
      if check_content then check_type sight check_diff fd.type fd diffs else (fd, diffs)

  -- None for the null pointer.
  unfoldable pub construct :
      Sight → Bytes → Bool → Bool → DiffDatabase → Option FileData × DiffDatabase
  unfolding is_empty construct_found
  construct sight path check_content check_diff diffs =
      let (fd, kept) = construct_found sight path check_content check_diff sight.stat diffs in
      if is_empty path then (none, diffs) else (some fd, kept)
