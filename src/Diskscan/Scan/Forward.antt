-- ===== src/Diskscan/Scan/Forward.antt =====
-- The answers to the requests of phase 2 come back to `alert_task`, and the scan ends.
use ctguard.Base.{
  ℕ, ◌≡◌, refl, Bool, true, false, ◌&&◌, List, Option, none, some, Bytes, if-both, is_empty, arith,
}
use ctguard.Diskscan.FileData.{
  FileData, FileType, file, link, Stat, Sight, DiffDatabase, compare_content, check_type,
  found_file, construct_found, construct,
}

module _ (hash : Bytes → Bytes) (unified : List Bytes → List Bytes → Bytes) (limit : ℕ) where
  compare_content-path :
      (go : Bool) (content : Bytes) (fd : FileData) (diffs : DiffDatabase)
      → (compare_content hash unified limit go content fd diffs).0.path ≡ fd.path
  unfolding compare_content
  compare_content-path false content fd diffs = refl
  compare_content-path true content fd diffs = ground arith

  check_type-path :
      (sight : Sight) (d : Bool) (t : FileType) (fd : FileData) (diffs : DiffDatabase)
      → (check_type hash unified limit sight d t fd diffs).0.path ≡ fd.path
  unfolding check_type
  check_type-path sight d file fd diffs =
      if-both (λ (x : FileData × DiffDatabase). x.0.path ≡ fd.path)
        (sight.opened && sight.read_well) _ _ (compare_content-path _ _ _ diffs) refl
  check_type-path sight d link fd diffs = ground arith
  check_type-path sight d _ fd diffs = refl

  construct_found-path :
      (sight : Sight) (path : Bytes) (c d : Bool) (o : Option Stat) (diffs : DiffDatabase)
      → (construct_found hash unified limit sight path c d o diffs).0.path ≡ path
  unfolding construct_found
  construct_found-path sight path c d none diffs = refl
  construct_found-path sight path c d (some s) diffs =
      if-both (λ (x : FileData × DiffDatabase). x.0.path ≡ path) c _ _
        (check_type-path sight d _ (found_file sight path s) diffs) refl

  -- An object that is looked at has the path that was asked for.
  pub construct-path :
      (sight : Sight) (path : Bytes) (c d : Bool) (diffs : DiffDatabase)
      → is_empty path ≡ false
      → (fd : FileData) × ((construct hash unified limit sight path c d diffs).0 ≡ some fd)
        × (fd.path ≡ path)
  unfolding construct
  construct-path sight path c d diffs p = (
    (construct_found hash unified limit sight path c d sight.stat diffs).0,
    rw p refl,
    construct_found-path sight path c d sight.stat diffs,
  )
