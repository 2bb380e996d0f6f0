-- ===== src/KnownHosts.antt =====
-- src/known_hosts.rs: trusted and revoked keys, and the check of a server's key against them.
pub mod Alg
pub mod Pattern
pub mod Entry
pub mod Handler
pub mod Preferred
pub mod SameLines
pub mod Monotone
pub mod Files
pub mod Channels
mod Tests
