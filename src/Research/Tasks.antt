-- ===== src/Research/Tasks.antt =====
-- The threads of src/research/daemon.cpp, each as the step that it makes over its queues.
pub mod Processing
pub mod Unless
pub mod Mail
pub mod Intervention
pub mod Output
pub mod Summary
pub mod Input
pub mod Shutdown
