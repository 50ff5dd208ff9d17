-- ===== src/Wdog.antt =====
-- src/glb_wdog.c: the watchdog, which turns the reports of the backend threads into changes of the
-- router.
pub mod State
pub mod Copy
pub mod Change
pub mod Collect
pub mod Rights
pub mod Keeps
pub mod Gone
pub mod Members
pub mod Main
pub mod Returns
pub mod Create
mod Tests
