-- ===== src/Saga/Engine/TwoPhase.antt =====
-- A saga as its authors describe it: a transaction over its first steps, then the steps after the
-- commit, whose failures are only logged. The steps are those of the sagas of the authentication
-- context: what they compensate is nothing.
pub mod Abort
pub mod Commit
pub mod Run
use stocka_server.Prelude.{
  ◌≡◌, refl, ap, ◌∙◌, ◌⊎◌, inl, inr, Bool, true, false, Option, none, some, List, [], ◌∷◌, ◌++◌,
  if◌then◌else◌, keep, reverse, is_some, All, All-append, All-keep, All-reverse, Text,
}
use stocka_server.Shared.Outcome.{Outcome, ok, err, throw, Outcome-cases, resume, ◌>>◌, pure, lift}
use stocka_server.Saga.Retry.{Failure, RetryOptions}
use stocka_server.Saga.Process
use stocka_server.Saga.Process.{ProcessState, States}
use stocka_server.Saga.Engine.{
  Task, Step, Progress, Platform, Stage, is_transactional, is_transactional_step, thrown, save,
  execute_step, compensation, compensate_step, compensate_each, compensate_all, run_compensation,
  begin_before, commit_after, on_failure, settle, run_step, run_steps, cleanup_process, finally,
  run,
}

module _ {W E : Type 0} where
  -- A step with nothing to compensate.
  pub record IsInert (step : Step W E) : Type 0 where
    pub no_retry : step.compensation_retry ≡ none
    pub no_effect : (step.compensate ≡ none) ⊎ (step.compensate ≡ some (pure tt))

  -- A step of the transaction.
  pub record IsInside (step : Step W E) : Type 0 where
    pub inert : IsInert step
    pub inside : is_transactional step ≡ true

  -- A step after the commit.
  pub record IsAfter (step : Step W E) : Type 0 where
    pub inert : IsInert step
    pub outside : is_transactional step ≡ false

module _ {W E : Type 0} (platform : Platform W E) where
  -- What a call throws, and the world afterwards.
  abbrev pub attempt : Task W E → W → Option (Failure E) × W
  attempt task w = (thrown platform (task w).0, (task w).1)

  abbrev pub unless_failed :
      (W → Option (Failure E) × W) → Option (Failure E) × W → Option (Failure E) × W
  unless_failed next (none, w) = next w
  unless_failed next (some e, w) = (some e, w)

  -- The steps in their order, up to the first that throws.
  unfoldable pub in_sequence : List (Step W E) → W → Option (Failure E) × W
  in_sequence [] w = (none, w)
  in_sequence (step ∷ steps) w =
      unless_failed (in_sequence steps) (attempt (execute_step platform step) w)

  -- The steps in their order, whatever they throw.
  unfoldable pub best_effort : List (Step W E) → W → W
  best_effort [] w = w
  best_effort (step ∷ steps) w = best_effort steps (execute_step platform step w).1

  -- After a commit; one that throws is followed by a rollback.
  abbrev pub after_commit :
      List (Step W E) → Option (Failure E) × W → Outcome (Failure E) (Unit {0}) × W
  after_commit after (none, w) = (ok tt, best_effort after w)
  after_commit after (some e, w) = (throw e, (platform.uow.rollback w).1)

  -- After a rollback because of `e`; one that throws is followed by another.
  abbrev pub after_rollback :
      Failure E → Option (Failure E) × W → Outcome (Failure E) (Unit {0}) × W
  after_rollback e (none, w) = (throw e, w)
  after_rollback e (some e', w) = (throw e', (platform.uow.rollback w).1)

  abbrev pub end_phase :
      List (Step W E) → Option (Failure E) × W → Outcome (Failure E) (Unit {0}) × W
  end_phase after (none, w) = after_commit after (attempt platform.uow.commit w)
  end_phase after (some e, w) = after_rollback e (attempt platform.uow.rollback w)

  abbrev pub begun :
      List (Step W E)
      → List (Step W E)
      → Option (Failure E) × W
      → Outcome (Failure E) (Unit {0}) × W
  begun inside after (none, w) = end_phase after (in_sequence inside w)
  begun inside after (some e, w) = (throw e, w)

  unfoldable pub two_phase :
      List (Step W E) → List (Step W E) → W → Outcome (Failure E) (Unit {0}) × W
  two_phase inside after w = begun inside after (attempt platform.uow.begin w)
