-- ===== src/Backend.antt =====
-- src/glb_wdog_backend.c and src/glb_wdog_exec.c: the threads that check destinations for the
-- watchdog.
pub mod Context
pub mod Command
pub mod Reply
pub mod Thread
pub mod Steps
pub mod Reports
pub mod Factory
pub mod Fits
mod Tests
