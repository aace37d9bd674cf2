-- ===== src/Intervention.antt =====
-- src/intervention: the daemon that runs the interventions.
pub mod Config
pub mod Action
pub mod Child
pub mod Tasks
