-- ===== src/Tests.antt =====
-- Concrete rules, events and runs, and the theorems applied to them.
mod Sample
mod Rules
mod Lines
mod Tasks
mod Checks
mod Config
mod Logscan
mod Intervention
mod Diskscan
mod Mail
