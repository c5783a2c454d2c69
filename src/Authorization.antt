-- ===== src/Authorization.antt =====
-- The authorization context (src/bounded-contexts/authorization): which actions a member may perform.
pub mod Resolver
pub mod Snapshot
mod Tests
