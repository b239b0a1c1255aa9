-- ===== src/Tools.antt =====
-- The small programs at the repository's root that the build and the test harness run.
pub mod Cycles
pub mod Fuzz
pub mod Gxemul
pub mod L3
pub mod Report
pub mod Select
pub mod Tests
