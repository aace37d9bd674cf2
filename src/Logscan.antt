-- ===== src/Logscan.antt =====
-- src/logscan: the daemon that follows log files.
pub mod Config
pub mod Lines
pub mod Logfile
pub mod State
pub mod Tasks
pub mod Output
pub mod Systemd
