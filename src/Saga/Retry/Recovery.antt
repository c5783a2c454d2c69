-- ===== src/Saga/Retry/Recovery.antt =====
-- `withRetry` around an operation that fails for a while and then answers.
use stocka_server.Prelude.{
  ℕ, zero, suc, ◌+◌, ◌*◌, ◌-◌, ◌^◌, ◌≤◌, ◌<◌, ◌≡◌, refl, ap, ◌∙◌, arith, subst,
}
use stocka_server.Shared.Outcome.{Outcome, ok, err, throw, Act}
use stocka_server.Saga.Retry.{
  Failure, no_attempts, RetryOptions, back_off, after_attempt, attempts, with_retry,
}
use stocka_server.Saga.Retry.Laws.{
  Meters, back_off-Leaves, back_off_waited, failing_step, double_pow,
}

module _ {W E A : Type 0} {delay : ℕ → W → W} {operation : Act W (Failure E) A}
    (options : RetryOptions) (meters : Meters W E A delay operation) where
  answering_step :
      (again : Failure E → Act W (Failure E) A) (attempt : ℕ) (t : Outcome (Failure E) A × W)
      (a : A)
      → t.0 ≡ ok a
      → after_attempt delay operation options again attempt t ≡ (ok a, t.1)
  answering_step again attempt (ok b, w) a h = ap (λ b. (b, w)) h
  answering_step again attempt (err b, w) a h = cc
  answering_step again attempt (throw b, w) a h = cc

  -- The operation throws until it was called `n` times, and the next call answers `value`.
  module _ (n : ℕ) (error : W → Failure E) (value : A)
      (fails : (w : W) → meters.calls w < n → (operation w).0 ≡ throw (error w))
      (answers : (w : W) → meters.calls w ≡ n → (operation w).0 ≡ ok value) where
    attempts_recovered :
        (k left j : ℕ) (last : Failure E) (w : W)
        → meters.calls w + k ≡ n
        → k ≤ left
        → suc j + left ≡ options.max_attempts
        → ((attempts delay operation options (suc left) (suc j) last w).0 ≡ ok value)
          × (meters.calls (attempts delay operation options (suc left) (suc j) last w).1 ≡ suc n)
          × (meters.waited (attempts delay operation options (suc left) (suc j) last w).1
                + options.backoff_ms * 2 ^ j
              ≡ meters.waited w + options.backoff_ms * 2 ^ (j + k))
    unfolding attempts
    attempts_recovered zero left j last w c h m =
        rw
          (answering_step (attempts delay operation options left (suc (suc j))) (suc j)
            (operation w) value (answers w (omega arith)))
          (
            refl,
            omega (arith, meters.calls-operation w),
            omega (
              arith,
              meters.waited-operation w,
              ap (λ i. options.backoff_ms * 2 ^ i) {x = j + 0} {y = j} (omega arith),
            ),
          )
    attempts_recovered (suc k) zero j last w c h m = absurd (omega (arith, h))
    attempts_recovered (suc k) (suc left) j last w c h m =
        let w' = back_off delay options (suc j) (operation w).1 in
        let same : meters.calls w' ≡ suc (meters.calls w) =
          back_off-Leaves meters.calls delay meters.calls-delay options (suc j) (operation w).1
          ∙ meters.calls-operation w in
        let (o, d, t) =
          attempts_recovered k left (suc j) (error w) w' (omega (arith, same, c)) (omega arith)
            (omega arith) in
        rw
          (failing_step options meters (attempts delay operation options (suc left) (suc (suc j)))
            (suc j) (operation w) (error w) (fails w (omega arith)))
          (
            o,
            d,
            omega (
              arith,
              t,
              meters.waited-operation w,
              double_pow options.backoff_ms j,
              back_off_waited options meters j (operation w).1 (omega arith),
              ap (λ i. options.backoff_ms * 2 ^ i) {x = suc j + k} {y = j + suc k} (omega arith),
            ),
          )

    -- If the first `k` calls of the operation throw, fewer than `maxAttempts`, and the next one
    -- answers, `withRetry` gives its answer after exactly `k + 1` calls and
    -- `backoffMs * (2 ^ k - 1)` milliseconds of waiting.
    pub with_retry_recovered :
        (k : ℕ) (w : W)
        → meters.calls w + k ≡ n
        → k < options.max_attempts
        → ((with_retry delay operation options w).0 ≡ ok value)
          × (meters.calls (with_retry delay operation options w).1 ≡ meters.calls w + suc k)
          × (meters.waited (with_retry delay operation options w).1 + options.backoff_ms
              ≡ meters.waited w + options.backoff_ms * 2 ^ k)
    unfolding with_retry
    with_retry_recovered k w c h =
        let same : suc (options.max_attempts - 1) ≡ options.max_attempts = omega arith in
        let (o, d, t) =
          attempts_recovered k (options.max_attempts - 1) 0 no_attempts w c (omega arith)
            (omega arith) in
        subst
          (λ m.
            ((attempts delay operation options m 1 no_attempts w).0 ≡ ok value)
            × (meters.calls (attempts delay operation options m 1 no_attempts w).1
                ≡ meters.calls w + suc k)
            × (meters.waited (attempts delay operation options m 1 no_attempts w).1
                  + options.backoff_ms
                ≡ meters.waited w + options.backoff_ms * 2 ^ k))
          same
          (
            o,
            omega (arith, d, c),
            omega
                (arith, t, ap (λ i. options.backoff_ms * 2 ^ i) {x = 0 + k} {y = k} (omega arith)),
          )
