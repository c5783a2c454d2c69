-- ===== src/Saga/Engine.antt =====
-- `Saga` (src/shared/domain/saga/saga.base.ts): the steps of a saga in their order, with the
-- transactions around them and the compensation of those that were completed.
pub mod Invariant
pub mod Cleanup
pub mod TwoPhase
use stocka_server.Prelude.{
  ℕ, Bool, true, false, not, ◌&&◌, Option, none, some, List, [], ◌∷◌, ◌++◌, reverse, keep, is_some,
  or_else, if◌then◌else◌, Text, codes, String,
}
use stocka_server.Shared.Outcome.{Outcome, ok, err, throw, Act, ◌>>=◌, ◌>>◌, pure, lift}
use stocka_server.Saga.Retry.{Failure, RetryOptions, with_retry}
use stocka_server.Saga.Process
use stocka_server.Saga.Process.{ProcessState, ProcessStatus, States}

-- A promise of nothing, on the world `W`: the context, the database, and all that handlers reach.
abbrev pub Task : Type 0 → Type 0 → Type 0
Task W E = Act W (Failure E) (Unit {0})

-- `IUnitOfWork`
pub record UnitOfWork (W E : Type 0) : Type 0 where
  pub begin : Task W E
  pub commit : Task W E
  pub rollback : Task W E

-- `SagaStepConfig`, with the two methods of its handler.
pub record Step (W E : Type 0) : Type 0 where
  pub name : Text
  pub execute : Task W E
  pub compensate : Option (Task W E)
  pub retry : Option RetryOptions
  pub compensation_retry : Option RetryOptions
  pub transactional : Option Bool

-- The local variables of `run`, the world, and the process states in memory.
pub record Progress (W E : Type 0) : Type 0 where
  pub world : W
  pub states : States
  pub state : ProcessState
  pub completed_steps : List (Step W E)
  pub has_open_transaction : Bool

-- `step.transactional !== false`
abbrev pub is_transactional : {W E : Type 0} → Step W E → Bool
is_transactional step = or_else step.transactional true

-- `isTransactionalStep`; there may be no step.
abbrev pub is_transactional_step : {W E : Type 0} → List (Step W E) → Bool
is_transactional_step [] = false
is_transactional_step (step ∷ _) = is_transactional step

abbrev pub first_name : {W E : Type 0} → List (Step W E) → Text
first_name [] = codes "init"
first_name (step ∷ _) = step.name

-- What the services around a saga are: the unit of work, the delay of the platform, the text of an
-- error, and the clock's reading.
pub record Platform (W E : Type 0) : Type 0 where
  pub uow : UnitOfWork W E
  pub delay : ℕ → W → W
  pub message : Failure E → Text
  pub now : ℕ
  pub process_name : Text

module _ {W E : Type 0} (platform : Platform W E) where
  abbrev pub Stage : Type 0 → Type 0
  Stage A = Act (Progress W E) (Failure E) A

  -- What a promise throws; a value that it resolves to is dropped.
  abbrev pub thrown : {A : Type 0} → Outcome (Failure E) A → Option (Failure E)
  thrown (ok _) = none
  thrown (err _) = none
  thrown (throw e) = some e

  -- `try { await task } catch (error) { ... }`
  abbrev pub caught : Task W E → Stage (Option (Failure E))
  caught task p = let (r, w) = task p.world in (ok (thrown r), record p { world = w })

  abbrev pub rethrow : Option (Failure E) → Stage (Unit {0})
  rethrow none = pure tt
  rethrow (some e) = lift (throw e)

  -- `await task`
  abbrev pub await : Task W E → Stage (Unit {0})
  await task = caught task >>= rethrow

  -- `hasOpenTransaction = b`
  abbrev pub set_open : Bool → Stage (Unit {0})
  set_open b p = (ok tt, record p { has_open_transaction = b })

  -- `await this.stateRepository.persist(...)`
  abbrev pub save : (ProcessState → ProcessState) → Stage (Unit {0})
  save change p = (ok tt, record p { states = Process.persist (change p.state) p.states })

  -- The same, where the result becomes the value of `state`.
  abbrev pub move : (ProcessState → ProcessState) → Stage (Unit {0})
  move change p = (
    ok tt,
    record p { state = change p.state; states = Process.persist (change p.state) p.states },
  )

  abbrev pub retried : Option RetryOptions → Task W E → Task W E
  retried none task = task
  retried (some options) task = with_retry platform.delay task options

  unfoldable pub execute_step : Step W E → Task W E
  execute_step step = retried step.retry step.execute

  abbrev pub compensation : Option RetryOptions → Option (Task W E) → Stage (Unit {0})
  compensation retry none = pure tt
  compensation retry (some task) = caught (retried retry task) >>= λ _logged. pure tt

  unfoldable pub compensate_step : Step W E → Stage (Unit {0})
  compensate_step step = compensation step.compensation_retry step.compensate

  abbrev pub compensate_each : List (Step W E) → Stage (Unit {0})
  compensate_each [] = pure tt
  compensate_each (step ∷ steps) = compensate_step step >> compensate_each steps

  abbrev pub compensate_all : Text → List (Step W E) → Stage (Unit {0})
  compensate_all message [] = pure tt
  compensate_all message (step ∷ steps) = do
    save (Process.compensate platform.now message)
    compensate_each (step ∷ steps)

  unfoldable pub run_compensation : Text → Stage (Unit {0})
  run_compensation message p =
      (compensate_all message (keep (λ s. is_some s.compensate) (reverse p.completed_steps))
          >> save (Process.fail_process platform.now message))
        p

  -- `if (isTransactional && !hasOpenTransaction)`
  unfoldable pub begin_before : Step W E → Stage (Unit {0})
  begin_before step p =
      if is_transactional step && not p.has_open_transaction
      then (await platform.uow.begin >> set_open true) p
      else pure tt p

  -- `if (isTransactional && hasOpenTransaction && !this.isTransactionalStep(steps[i + 1]))`
  unfoldable pub commit_after : Step W E → List (Step W E) → Stage (Unit {0})
  commit_after step rest p =
      if is_transactional step && (p.has_open_transaction && not (is_transactional_step rest))
      then (await platform.uow.commit >> set_open false) p
      else pure tt p

  abbrev pub enter : Step W E → Stage (Unit {0})
  enter step p =
      move
        (Process.transition platform.now step.name (
          if p.has_open_transaction
          then ProcessStatus.processing
          else ProcessStatus.post_processing))
        p

  abbrev pub push : Step W E → Stage (Unit {0})
  push step p = (ok tt, record p { completed_steps = p.completed_steps ++ step ∷ [] })

  -- The `catch` of a step, with the error that was caught.
  unfoldable pub on_failure : Step W E → Failure E → Stage (Unit {0})
  on_failure step e p =
      if p.has_open_transaction
      then (await platform.uow.rollback
            >> (set_open false >> (run_compensation (platform.message e) >> lift (throw e))))
          p
      else compensate_step step p

  abbrev pub settle : Step W E → List (Step W E) → Option (Failure E) → Stage (Unit {0})
  settle step rest none = push step >> commit_after step rest
  settle step rest (some e) = on_failure step e

  -- The body of the loop.
  unfoldable pub run_step : Step W E → List (Step W E) → Stage (Unit {0})
  run_step step rest = do
    begin_before step
    enter step
    error ← caught (execute_step step)
    settle step rest error

  unfoldable pub run_steps : List (Step W E) → Stage (Unit {0})
  run_steps [] = pure tt
  run_steps (step ∷ rest) = run_step step rest >> run_steps rest

  -- `cleanupProcess`
  unfoldable pub cleanup_process : Text → Progress W E → W × States
  cleanup_process process_id p = (
    if p.has_open_transaction then (platform.uow.rollback p.world).1 else p.world,
    Process.delete process_id p.states,
  )

  abbrev pub finally :
      Text
      → Outcome (Failure E) (Unit {0}) × Progress W E
      → Outcome (Failure E) (Unit {0}) × W × States
  finally process_id (r, p) = let (w, states) = cleanup_process process_id p in (r, w, states)

  -- The progress after `initiate`.
  abbrev pub initiated : Text → Text → List (Step W E) → W → States → Progress W E
  initiated id correlation_id steps world states =
      let state =
        Process.initiate platform.now id platform.process_name correlation_id (first_name steps) in
      record {
        world = world;
        states = Process.persist state states;
        state = state;
        completed_steps = [];
        has_open_transaction = false;
      }

  -- `run`, where `id` and `correlation_id` are the two `uuidv7()`.
  unfoldable pub run :
      Text → Text → List (Step W E) → W → States → Outcome (Failure E) (Unit {0}) × W × States
  run id correlation_id steps world states = finally id (
      (run_steps steps >> save (Process.complete platform.now))
        (initiated id correlation_id steps world states))
