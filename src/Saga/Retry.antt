-- ===== src/Saga/Retry.antt =====
-- `withRetry` (src/shared/domain/utils/with-retry.ts). The delay of the platform is a parameter.
pub mod Laws
pub mod Recovery
use stocka_server.Prelude.{
  ℕ, zero, suc, ◌*◌, ◌-◌, ◌^◌, Bool, true, false, Option, none, some, if◌then◌else◌, ltb,
}
use stocka_server.Shared.Outcome.{Outcome, ok, err, throw, Act}

-- What is thrown on the way: an error of a handler or of the unit of work, `RetryExhaustedException`
-- with its last error, or the error that `lastError` starts with.
pub data Failure (E : Type 0) : Type 0 where
  raised : E → Failure E
  retry_exhausted : ℕ → Failure E → Failure E
  no_attempts : Failure E

pub record RetryOptions : Type 0 where
  pub max_attempts : ℕ
  pub backoff_ms : ℕ

module _ {W : Type 0} (delay : ℕ → W → W) where
  -- `if (attempt < maxAttempts) await delay(backoffMs * Math.pow(2, attempt - 1))`
  abbrev pub back_off : RetryOptions → ℕ → W → W
  back_off options attempt w =
      if ltb attempt options.max_attempts
      then delay (options.backoff_ms * 2 ^ (attempt - 1)) w
      else w

  module _ {E A : Type 0} (operation : Act W (Failure E) A) (options : RetryOptions) where
    -- The loop, with `left` attempts to go; `again` is the rest of it.
    abbrev pub after_attempt :
        (Failure E → Act W (Failure E) A)
        → ℕ
        → Outcome (Failure E) A × W
        → Outcome (Failure E) A × W
    after_attempt again attempt (ok a, w) = (ok a, w)
    after_attempt again attempt (err e, w) = (err e, w)
    after_attempt again attempt (throw e, w) = again e (back_off options attempt w)

    unfoldable pub attempts : ℕ → ℕ → Failure E → Act W (Failure E) A
    attempts zero attempt last w = (throw (retry_exhausted options.max_attempts last), w)
    attempts (suc left) attempt last w =
        after_attempt (attempts left (suc attempt)) attempt (operation w)

    unfoldable pub with_retry : Act W (Failure E) A
    unfolding attempts
    with_retry = attempts options.max_attempts 1 no_attempts
