-- ===== src/Saga.antt =====
-- Sagas (src/shared/domain/saga), the process manager under them (src/shared/domain/process-manager)
-- and the retry of their steps (src/shared/domain/utils/with-retry.ts).
pub mod Retry
pub mod Process
pub mod Engine
pub mod Journal
mod Tests
