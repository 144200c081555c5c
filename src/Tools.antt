-- ===== src/Tools.antt =====
-- src/tools
pub mod FetchUrl
pub mod Registry
pub mod Guarded
