-- ===== src/Kernel.antt =====
-- The kernel module, kernel/*.c.
pub mod Ring
pub mod Device
pub mod Rings
pub mod Memory
pub mod Mmio
pub mod User
pub mod Dma
pub mod Chardev
pub mod Ledger
pub mod Nodes
pub mod Procfs
pub mod Driver
