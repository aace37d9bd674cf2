-- ===== src/FilePerms/Trusted.antt =====
-- Who can write and read a configuration that was accepted.
use ctguard.Base.{ℕ, ◌≡◌, ◌↔◌, ◌⊎◌, Option, some, ok, arith, get_elem?}
use ctguard.Diskscan.Mode.{print_mode, flag}
use ctguard.FilePerms.{FileInfo, Process, group_or_root, check_info}

-- The owner and the group are root's, the process's own, or the system group of ctguard; and `ls`
-- shows the file as not writeable for its group, and neither readable nor writeable for others.
pub record IsTrusted (p : Process) (group : Option ℕ) (info : FileInfo) : Type 0 where
  pub owner : (info.st_uid ≡ 0) ⊎ (info.st_uid ≡ p.euid)
  pub in_group : (info.st_gid ≡ 0) ⊎ ((info.st_gid ≡ p.egid) ⊎ (info.st_gid ≡ group_or_root group))
  pub group_write : get_elem? (print_mode info.st_mode) 5 ≡ some b'-'
  pub other_read : get_elem? (print_mode info.st_mode) 7 ≡ some b'-'
  pub other_write : get_elem? (print_mode info.st_mode) 8 ≡ some b'-'

module _ (p : Process) (group : Option ℕ) (info : FileInfo) where
  accepted : check_info p group info ≡ ok tt → IsTrusted p group info
  unfolding check_info print_mode flag
  accepted h = record {
    owner = ground arith;
    in_group = ground arith;
    group_write = ground arith;
    other_read = ground arith;
    other_write = ground arith;
  }

  trusted : IsTrusted p group info → check_info p group info ≡ ok tt
  unfolding check_info print_mode flag
  trusted h = ground (arith, h.owner, h.in_group, h.group_write, h.other_read, h.other_write)

  -- Where stat succeeds, a configuration file is accepted exactly when its owner is root or the
  -- process's user, its group is root's, the process's or that of ctguard, and `ls` shows it as not
  -- writeable for its group, and neither readable nor writeable for others.
  pub check_info-IsTrusted : (check_info p group info ≡ ok tt) ↔ IsTrusted p group info
  check_info-IsTrusted = (accepted, trusted)
