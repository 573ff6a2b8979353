-- ===== src/Tests.antt =====
-- Runs of the models on concrete inputs.
mod Data
mod Ring
mod Mmio
mod Dma
mod Chardev
mod Config
mod Linux
mod Driver
mod Examples
mod Windows
mod Options
mod Monitor
mod Procfs
mod Csv
mod Startup
mod Library
