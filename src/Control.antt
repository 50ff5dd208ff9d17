-- ===== src/Control.antt =====
-- src/glb_control.c: the control interface.
pub mod Clients
pub mod Request
pub mod Serve
pub mod Listening
pub mod Polls
pub mod Keeps
pub mod Quiet
pub mod Visits
pub mod Returns
mod Tests
