-- ===== src/Users.antt =====
-- The user context (src/bounded-contexts/user): the accounts with their credentials.
pub mod Email
pub mod Credential
pub mod Facade
pub mod Reactions
mod Tests
