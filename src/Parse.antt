-- ===== src/Parse.antt =====
-- src/glb_dst.c and src/glb_misc.c: what is read from text.
pub mod Tokens
pub mod Dst
pub mod Sample
mod Tests
