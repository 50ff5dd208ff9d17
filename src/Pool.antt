-- ===== src/Pool.antt =====
-- src/glb_pool.c: the threads that carry the data of the connections.
pub mod State
pub mod Send
pub mod Receive
pub mod Conns
pub mod Threads
pub mod Stream
pub mod Flow
pub mod Counts
pub mod Drop
pub mod Events
pub mod EventCounts
pub mod Shutdown
pub mod Broadcast
pub mod Balance
mod Tests
