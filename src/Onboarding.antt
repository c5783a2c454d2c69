-- ===== src/Onboarding.antt =====
-- The onboarding context (src/bounded-contexts/onboarding): the session that keeps a user's answers.
pub mod Session
pub mod Handlers
mod Tests
