-- ===== src/Utils.antt =====
-- The shared utilities, utils/*.
pub mod Config
pub mod Options
pub mod Csv
