-- ===== src/Examples.antt =====
-- examples/: the test programs, as clients of the library.
pub mod Tester
pub mod Records
pub mod Logging
pub mod Pattern
pub mod Stress
pub mod Program
pub mod Basic
