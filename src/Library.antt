-- ===== src/Library.antt =====
-- The user-space library in front of the backends: lib/core.c, and the C++ classes of lib/device.hpp
-- and lib/monitor.hpp.
pub mod Backend
pub mod Core
pub mod Device
pub mod Monitor
