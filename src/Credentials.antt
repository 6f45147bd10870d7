-- ===== src/Credentials.antt =====
-- The credential helpers.
pub mod Reply
pub mod Defs
pub mod Ends
pub mod Refresh
pub mod Headers
pub mod System
pub mod Invariant
pub mod Moves
pub mod Grants
pub mod Safety
pub mod Quiet
pub mod Runs
