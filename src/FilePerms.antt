-- ===== src/FilePerms.antt =====
-- `check_cfg_file_perms` of src/libs/check_file_perms.cpp: who may have written a configuration. The
-- results of `stat`, of the lookup of the group, and the process's own ids are parameters.
pub mod Trusted
use ctguard.Base.{
  ℕ, Bool, true, false, not, ◌&&◌, ◌||◌, Option, none, some, ◌==◌, if◌then◌else◌, Outcome, ok, err,
  ◌>>=◌, ◌>>◌, guard, or_err,
}
use ctguard.Diskscan.Mode.{has_bit}

pub data PermError : Type 0 where
  no_stat insecure_owner insecure_group group_writeable other_writeable other_readable : PermError

pub record FileInfo : Type 0 where
  pub st_uid : ℕ
  pub st_gid : ℕ
  pub st_mode : ℕ

pub record Process : Type 0 where
  pub euid : ℕ
  pub egid : ℕ

-- `ctguard_gid`
unfoldable pub group_or_root : Option ℕ → ℕ
group_or_root none = 0
group_or_root (some gid) = gid

unfoldable pub check_info : Process → Option ℕ → FileInfo → Outcome PermError (Unit {0})
unfolding has_bit group_or_root
check_info p group info = do
  guard (info.st_uid == 0 || info.st_uid == p.euid) insecure_owner
  guard (info.st_gid == 0 || info.st_gid == p.egid || info.st_gid == group_or_root group)
      insecure_group
  guard (not (has_bit info.st_mode 4)) group_writeable
  guard (not (has_bit info.st_mode 1)) other_writeable
  guard (not (has_bit info.st_mode 2)) other_readable
  ok tt

unfoldable pub check_cfg_file_perms :
    Process → Option ℕ → Option FileInfo → Outcome PermError (Unit {0})
unfolding check_info
check_cfg_file_perms p group stat = do info ← or_err stat no_stat; check_info p group info
