-- ===== src/Sim.antt =====
-- The simulation backends of sim/.
pub mod Linux
pub mod Windows
