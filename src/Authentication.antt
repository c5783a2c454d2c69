-- ===== src/Authentication.antt =====
-- The authentication context (src/bounded-contexts/authentication): verification codes, password
-- resets and sessions.
pub mod Services
pub mod VerificationToken
pub mod Verification
pub mod Password
pub mod Sessions
pub mod Sagas
pub mod PasswordReset
pub mod Tokens
pub mod Refresh
pub mod SignIn
mod Tests
