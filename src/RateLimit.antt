-- ===== src/RateLimit.antt =====
-- The limits on failed attempts (src/common/guards/rate-limit.guard.ts and
-- src/common/interceptors/rate-limit.interceptor.ts).
pub mod Block
pub mod Guard
mod Tests
