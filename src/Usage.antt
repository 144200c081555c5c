-- ===== src/Usage.antt =====
-- src/usage: what a turn costs, and the record that is kept of it.
pub mod Cost
pub mod Recorded
pub mod Groups
pub mod Stats
