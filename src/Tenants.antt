-- ===== src/Tenants.antt =====
-- The tenant context (src/bounded-contexts/tenant): members and their invitations.
pub mod Invitation
pub mod Handlers
mod Tests
