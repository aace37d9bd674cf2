-- ===== src/Diskscan/Flags.antt =====
-- The flags of an event: `enum flags` of src/diskscan/daemon.cpp, a field for each bit that is used.
use ctguard.Base.{Bool, true, false, ◌||◌}

pub record Flags : Type 0 where
  pub chk_content : Bool
  pub recursive : Bool
  pub force_update : Bool
  pub chk_diff : Bool
  pub kill : Bool
  pub startscan : Bool
  pub midscan : Bool
  pub endscan : Bool

abbrev pub no_flags : Flags
no_flags = record {
  chk_content = false;
  recursive = false;
  force_update = false;
  chk_diff = false;
  kill = false;
  startscan = false;
  midscan = false;
  endscan = false;
}

-- `flags & SPECIAL`
unfoldable pub is_special : Flags → Bool
is_special f = f.kill || f.startscan || f.midscan || f.endscan

abbrev pub kill_flag : Flags
kill_flag = record no_flags { kill = true }

abbrev pub startscan_flag : Flags
startscan_flag = record no_flags { startscan = true }

abbrev pub midscan_flag : Flags
midscan_flag = record no_flags { midscan = true }

abbrev pub endscan_flag : Flags
endscan_flag = record no_flags { endscan = true }
