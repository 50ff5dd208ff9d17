-- ===== src/Double.antt =====
-- The C `double`: its interface, and numbers at which the interface is met.
pub mod Interface
pub mod Fixed
pub use Interface.{Double}
