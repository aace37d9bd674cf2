-- ===== src/Diskscan/Alerts/Uninitialised.antt =====
-- What stands in an alert where no checksum was computed.
use ctguard.Base.{ℕ, ◌≡◌, refl, Bool, true, false, ◌&&◌, List, ◌++◌, some, Bytes, codes, is_empty}
use ctguard.Diskscan.Mode.{format_of}
use ctguard.Diskscan.FileData.{
  file, FileData, Stat, Sight, DiffDatabase, found_file, construct_found, construct,
}
use ctguard.Diskscan.Alerts.{field, new_start, new_end, new_object}

module _ (hash : Bytes → Bytes) (unified : List Bytes → List Bytes → Bytes) (limit : ℕ) where
  unread :
      (sight : Sight) (path : Bytes) (check_diff : Bool) (s : Stat) (diffs : DiffDatabase)
      → sight.stat ≡ some s
      → format_of s.st_mode ≡ 8
      → (sight.opened && sight.read_well) ≡ false
      → is_empty path ≡ false
      → construct hash unified limit sight path true check_diff diffs
        ≡ (some (record (found_file sight path s) { type = file }), diffs)
  unfolding construct construct_found
  unread sight path check_diff s diffs found regular bad p =
      rw (p, found, construct_found) (rw regular (rw bad refl))

  -- Where a regular file cannot be opened or read, the alert about it shows as its checksum what the
  -- memory of the new object held.
  pub new_object-memory :
      (unit_test : Bool) (time_text : ℕ → Bytes) (sight : Sight) (path : Bytes) (check_diff : Bool)
      (s : Stat) (diffs : DiffDatabase)
      → sight.stat ≡ some s
      → format_of s.st_mode ≡ 8
      → (sight.opened && sight.read_well) ≡ false
      → is_empty path ≡ false
      → (fd : FileData) × (construct hash unified limit sight path true check_diff diffs
          ≡ (some fd, diffs))
        × (new_object unit_test time_text fd
            ≡ new_start unit_test time_text fd
              ++ (field (codes "SHA256 checksum: ") sight.memory ++ new_end unit_test time_text fd))
  unfolding new_object found_file
  new_object-memory unit_test time_text sight path check_diff s diffs found regular bad p = (
    record (found_file sight path s) { type = file },
    unread sight path check_diff s diffs found regular bad p,
    refl,
  )
