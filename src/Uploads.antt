-- ===== src/Uploads.antt =====
-- src/uploads/uploads.service.ts
pub mod Context
pub mod Save
pub mod Attached
