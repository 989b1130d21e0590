-- ===== src/User.antt =====
-- The user programs and their library.
pub mod Grep
pub mod Sh
pub mod Ulib
pub mod Printf
