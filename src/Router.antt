-- ===== src/Router.antt =====
-- src/glb_router.c and src/glb_router.h: the choice of a destination for each connection.
pub mod State
pub mod Top
pub mod Map
pub mod Check
pub mod Choose
pub mod Change
pub mod Disconnect
pub mod Sound
pub mod Keeps
pub mod Chosen
pub mod Policy
pub mod Invariant
pub mod Remove
pub mod ChangeInvariant
pub mod Best
pub mod Least
pub mod Hints
pub mod FirstHint
pub mod Round
pub mod Again
pub mod View
pub mod Refine
pub mod Connect
pub mod Attempts
pub mod Addrs
pub mod Create
pub mod Busy
pub mod Places
pub mod Requests
pub mod Reach
pub mod Stale
mod Tests
