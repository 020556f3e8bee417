-- ===== src/Sys.antt =====
-- include/afx/sys.
pub mod Endian
