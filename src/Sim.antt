-- ===== src/Sim.antt =====
-- src/sim.
pub mod Net
