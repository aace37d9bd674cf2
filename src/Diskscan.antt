-- ===== src/Diskscan.antt =====
-- src/diskscan: the daemon that watches files.
pub mod Config
pub mod Mode
pub mod FileData
pub mod Alerts
pub mod Flags
pub mod Alerter
pub mod Scan
pub mod Finished
pub mod Realtime
