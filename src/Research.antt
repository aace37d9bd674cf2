-- ===== src/Research.antt =====
-- src/research: the daemon that turns log lines into alerts.
pub mod Types
pub mod Env
pub mod Event
pub mod Rule
pub mod Check
pub mod Process
pub mod Text
pub mod Parse
pub mod Config
pub mod SendMail
pub mod Tasks
