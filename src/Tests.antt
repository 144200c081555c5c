-- ===== src/Tests.antt =====
-- Runs of the model at concrete inputs.
pub mod Data
pub mod Credits
pub mod Sessions
pub mod Threads
pub mod Pages
pub mod Runs
pub mod Keys
pub mod Streams
pub mod Memory
pub mod Tools
pub mod Files
pub mod Jobs
pub mod Server
