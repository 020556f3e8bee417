-- ===== src/Admin.antt =====
-- src/admin.
pub mod Http
