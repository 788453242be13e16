-- ===== src/Access.antt =====
-- internal/access: who may sign in, how often they may try, and how a session is carried.
pub mod Username
pub mod Throttle
pub mod Revocations
pub mod Session
pub mod Cookies
pub mod Passwd
pub mod Gate
pub mod Postures
