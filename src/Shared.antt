-- ===== src/Shared.antt =====
-- What the bounded contexts share: how an operation ends, and chains of operations on a state
-- (src/shared/domain/result, which passes on neverthrow's `Result`, and JavaScript's `throw`).
pub mod Outcome
pub mod Rules
pub mod Bus
