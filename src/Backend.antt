-- ===== src/Backend.antt =====
-- src/backend.
pub mod Sim
