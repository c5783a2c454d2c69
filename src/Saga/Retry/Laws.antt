-- ===== src/Saga/Retry/Laws.antt =====
-- How often `withRetry` calls its operation, how long it waits, and what it answers.
use native.Mathlib.Nat.{pow-suc}
use stocka_server.Prelude.{
  ℕ, zero, suc, ◌+◌, ◌*◌, ◌-◌, ◌^◌, ◌≤◌, ◌<◌, ◌≡◌, refl, ap, ◌∙◌, inl, inr, ltb, Bool-cases, arith,
  subst,
}
use stocka_server.Shared.Outcome.{Outcome, ok, err, throw, Act}
use stocka_server.Saga.Retry.{
  Failure, retry_exhausted, no_attempts, RetryOptions, back_off, after_attempt, attempts,
  with_retry,
}

pub double_pow : (b k : ℕ) → b * 2 ^ suc k ≡ b * 2 ^ k + b * 2 ^ k
double_pow b k = ap (λ x. b * x) (pow-suc 2 k) ∙ (omega arith)

-- A view of the world that neither the delay nor the operation changes is the same afterwards.
module _ {W V : Type 0} (v : W → V) (delay : ℕ → W → W)
    (keeps : (ms : ℕ) (w : W) → v (delay ms w) ≡ v w) where
  pub back_off-Leaves :
      (options : RetryOptions) (attempt : ℕ) (w : W) → v (back_off delay options attempt w) ≡ v w
  back_off-Leaves options attempt w = elim (Bool-cases (ltb attempt options.max_attempts)) [
    | inl e ↦ rw e (keeps _ w)
    | inr e ↦ rw e
  ]

  module _ {E A : Type 0} (operation : Act W (Failure E) A) (options : RetryOptions) where
    after_attempt-Leaves :
        (again : Failure E → Act W (Failure E) A) (attempt : ℕ) (t : Outcome (Failure E) A × W)
        (w : W)
        → v t.1 ≡ v w
        → ((e : Failure E) (w : W) → v (again e w).1 ≡ v w)
        → v (after_attempt delay operation options again attempt t).1 ≡ v w
    after_attempt-Leaves again attempt (ok a, w') w h k = h
    after_attempt-Leaves again attempt (err e, w') w h k = h
    after_attempt-Leaves again attempt (throw e, w') w h k =
        k e _ ∙ back_off-Leaves options attempt w' ∙ h

    attempts-Leaves :
        ((w : W) → v (operation w).1 ≡ v w)
        → (left attempt : ℕ) (last : Failure E) (w : W)
        → v (attempts delay operation options left attempt last w).1 ≡ v w
    unfolding attempts
    attempts-Leaves h zero attempt last w = refl
    attempts-Leaves h (suc left) attempt last w =
        after_attempt-Leaves (attempts delay operation options left (suc attempt)) attempt
          (operation w) w (h w) (attempts-Leaves h left (suc attempt))

    pub with_retry-Leaves :
        ((w : W) → v (operation w).1 ≡ v w)
        → (w : W) → v (with_retry delay operation options w).1 ≡ v w
    unfolding with_retry
    with_retry-Leaves h w = attempts-Leaves h options.max_attempts 1 no_attempts w

-- What is counted in the world: the calls of the operation, and the milliseconds waited.
pub record Meters (W E A : Type 0) (delay : ℕ → W → W) (operation : Act W (Failure E) A)
    : Type 0 where
  pub calls : W → ℕ
  pub waited : W → ℕ
  pub calls-operation : (w : W) → calls (operation w).1 ≡ suc (calls w)
  pub calls-delay : (ms : ℕ) (w : W) → calls (delay ms w) ≡ calls w
  pub waited-operation : (w : W) → waited (operation w).1 ≡ waited w
  pub waited-delay : (ms : ℕ) (w : W) → waited (delay ms w) ≡ waited w + ms

module _ {W E A : Type 0} {delay : ℕ → W → W} {operation : Act W (Failure E) A}
    (options : RetryOptions) (meters : Meters W E A delay operation) where
  after_attempt_calls :
      (again : Failure E → Act W (Failure E) A) (attempt n left : ℕ) (t : Outcome (Failure E) A × W)
      → meters.calls t.1 ≡ suc n
      → ((e : Failure E) (w : W) → meters.calls (again e w).1 ≤ meters.calls w + left)
      → meters.calls (after_attempt delay operation options again attempt t).1 ≤ n + suc left
  after_attempt_calls again attempt n left (ok a, w) h k = omega arith
  after_attempt_calls again attempt n left (err e, w) h k = omega arith
  after_attempt_calls again attempt n left (throw e, w) h k = omega (
    arith,
    k e (back_off delay options attempt w),
    back_off-Leaves meters.calls delay meters.calls-delay options attempt w,
  )

  attempts_calls :
      (left attempt : ℕ) (last : Failure E) (w : W)
      → meters.calls (attempts delay operation options left attempt last w).1
        ≤ meters.calls w + left
  unfolding attempts
  attempts_calls zero attempt last w = omega arith
  attempts_calls (suc left) attempt last w =
      after_attempt_calls (attempts delay operation options left (suc attempt)) attempt
        (meters.calls w) left (operation w) (meters.calls-operation w)
        (λ e w. attempts_calls left (suc attempt) e w)

  -- `withRetry` calls its operation at most `maxAttempts` times.
  pub with_retry_bounded :
      (w : W)
      → meters.calls (with_retry delay operation options w).1
        ≤ meters.calls w + options.max_attempts
  unfolding with_retry
  with_retry_bounded w = attempts_calls options.max_attempts 1 no_attempts w

  pub back_off_waited :
      (k : ℕ) (w : W)
      → suc k < options.max_attempts
      → meters.waited (back_off delay options (suc k) w)
        ≡ meters.waited w + options.backoff_ms * 2 ^ k
  back_off_waited k w h = elim (Bool-cases (ltb (suc k) options.max_attempts)) [
    | inl e ↦ rw e (
        meters.waited-delay _ w
        ∙ ap (λ n. meters.waited w + options.backoff_ms * 2 ^ n) {x = suc k - 1} {y = k}
            (omega arith))
    | inr e ↦ ground arith
  ]

  last_back_off :
      (k : ℕ) (w : W)
      → suc k + 0 ≡ options.max_attempts
      → meters.waited (back_off delay options (suc k) w) ≡ meters.waited w
  last_back_off k w h = elim (Bool-cases (ltb (suc k) options.max_attempts)) [
    | inl e ↦ ground arith
    | inr e ↦ rw e refl
  ]

  same_power :
      (k : ℕ)
      → suc k + 0 ≡ options.max_attempts
      → options.backoff_ms * 2 ^ k ≡ options.backoff_ms * 2 ^ (options.max_attempts - 1)
  same_power k h = ap (λ n. options.backoff_ms * 2 ^ n) {y = options.max_attempts - 1} (omega arith)

  pub failing_step :
      (again : Failure E → Act W (Failure E) A) (attempt : ℕ) (t : Outcome (Failure E) A × W)
      (e : Failure E)
      → t.0 ≡ throw e
      → after_attempt delay operation options again attempt t
        ≡ again e (back_off delay options attempt t.1)
  failing_step again attempt (ok a, w) e h = cc
  failing_step again attempt (err a, w) e h = cc
  failing_step again attempt (throw a, w) e h =
      ap (λ e. again e (back_off delay options attempt w)) (cc h)

  -- The last error of an operation that always throws.
  module _ (error : W → Failure E) (fails : (w : W) → (operation w).0 ≡ throw (error w)) where
    attempts_exhausted :
        (left k : ℕ) (last : Failure E) (w : W)
        → suc k + left ≡ options.max_attempts
        → (meters.calls (attempts delay operation options (suc left) (suc k) last w).1
            ≡ meters.calls w + suc left)
          × (meters.waited (attempts delay operation options (suc left) (suc k) last w).1
                + options.backoff_ms * 2 ^ k
              ≡ meters.waited w + options.backoff_ms * 2 ^ (options.max_attempts - 1))
          × ((e : Failure E) × ((attempts delay operation options (suc left) (suc k) last w).0
                ≡ throw (retry_exhausted options.max_attempts e)))
    unfolding attempts
    attempts_exhausted zero k last w h =
        rw
          (failing_step (attempts delay operation options zero (suc (suc k))) (suc k) (operation w)
            (error w) (fails w))
          (
            back_off-Leaves meters.calls delay meters.calls-delay options (suc k) (operation w).1
                ∙ meters.calls-operation w
                ∙ (omega arith),
            omega (
              arith,
              last_back_off k (operation w).1 h,
              meters.waited-operation w,
              same_power k h,
            ),
            (error w, refl),
          )
    attempts_exhausted (suc left) k last w h =
        let w' = back_off delay options (suc k) (operation w).1 in
        let (c, t, e) = attempts_exhausted left (suc k) (error w) w' (omega arith) in
        rw
          (failing_step (attempts delay operation options (suc left) (suc (suc k))) (suc k)
            (operation w) (error w) (fails w))
          (
            omega (
              arith,
              c,
              meters.calls-operation w,
              back_off-Leaves meters.calls delay meters.calls-delay options (suc k) (operation w).1,
            ),
            omega (
              arith,
              t,
              meters.waited-operation w,
              double_pow options.backoff_ms k,
              back_off_waited k (operation w).1 (omega arith),
            ),
            e,
          )

    -- If every call of the operation throws, `withRetry` with at least one attempt calls it exactly
    -- `maxAttempts` times, waits `backoffMs * (2 ^ (maxAttempts - 1) - 1)` milliseconds in all, and
    -- throws `RetryExhaustedException` with that number of attempts.
    pub with_retry_exhausted :
        (w : W)
        → 1 ≤ options.max_attempts
        → (meters.calls (with_retry delay operation options w).1
            ≡ meters.calls w + options.max_attempts)
          × (meters.waited (with_retry delay operation options w).1 + options.backoff_ms
              ≡ meters.waited w + options.backoff_ms * 2 ^ (options.max_attempts - 1))
          × ((e : Failure E) × ((with_retry delay operation options w).0
                ≡ throw (retry_exhausted options.max_attempts e)))
    unfolding with_retry
    with_retry_exhausted w h =
        let same : suc (options.max_attempts - 1) ≡ options.max_attempts = omega arith in
        let (c, t, e) =
          attempts_exhausted (options.max_attempts - 1) 0 no_attempts w (omega arith) in
        subst
          (λ n.
            (meters.calls (attempts delay operation options n 1 no_attempts w).1
              ≡ meters.calls w + n)
            × (meters.waited (attempts delay operation options n 1 no_attempts w).1
                  + options.backoff_ms
                ≡ meters.waited w + options.backoff_ms * 2 ^ (options.max_attempts - 1))
            × ((e : Failure E) × ((attempts delay operation options n 1 no_attempts w).0
                  ≡ throw (retry_exhausted options.max_attempts e))))
          same (c, omega (arith, t), e)
