-- ===== src/Saga/Engine/TwoPhase/Abort.antt =====
-- A transaction of a saga that is rolled back.
use stocka_server.Prelude.{
  ◌≡◌, refl, ap, ◌∙◌, ◌⊎◌, inl, inr, true, false, Option, none, some, List, [], ◌∷◌, if◌then◌else◌,
  keep, reverse, is_some, All, All-keep, All-reverse, Text,
}
use stocka_server.Shared.Outcome.{Outcome, ok, throw, Outcome-cases, resume, ◌>>◌, pure, lift}
use stocka_server.Saga.Retry.{Failure, RetryOptions}
use stocka_server.Saga.Process.{ProcessState, States}
use stocka_server.Saga.Engine.{
  Task, Step, Progress, Platform, Stage, compensation, compensate_step, compensate_each,
  compensate_all, run_compensation, on_failure,
}
use stocka_server.Saga.Engine.TwoPhase.{IsInert, attempt, after_rollback}

module _ {W E : Type 0} (platform : Platform W E) where
  -- The progress of a saga with its transaction open, and with none.
  abbrev pub opened : W → States → ProcessState → List (Step W E) → Progress W E
  opened w states state steps = record {
    world = w;
    states = states;
    state = state;
    completed_steps = steps;
    has_open_transaction = true;
  }

  abbrev pub closed : W → States → ProcessState → List (Step W E) → Progress W E
  closed w states state steps = record {
    world = w;
    states = states;
    state = state;
    completed_steps = steps;
    has_open_transaction = false;
  }

  -- What is left of the progress when the saga has ended.
  abbrev pub seen :
      Outcome (Failure E) (Unit {0}) × Progress W E → Outcome (Failure E) (Unit {0}) × W
  seen (r, p) = (r, if p.has_open_transaction then (platform.uow.rollback p.world).1 else p.world)

  pub compensation_inert :
      (retry : Option RetryOptions) (task : Option (Task W E)) (p : Progress W E)
      → retry ≡ none
      → (task ≡ none) ⊎ (task ≡ some (pure tt))
      → compensation platform retry task p ≡ (ok tt, p)
  compensation_inert retry task p r (inl t) = rw (r, t) refl
  compensation_inert retry task p r (inr t) = rw (r, t) refl

  pub compensate_step_inert :
      (step : Step W E) (p : Progress W E)
      → IsInert step
      → compensate_step platform step p ≡ (ok tt, p)
  unfolding compensate_step
  compensate_step_inert step p i =
      compensation_inert step.compensation_retry step.compensate p i.no_retry i.no_effect

  pub compensate_each_inert :
      (steps : List (Step W E)) (p : Progress W E)
      → All IsInert steps
      → compensate_each platform steps p ≡ (ok tt, p)
  compensate_each_inert [] p i = refl
  compensate_each_inert (step ∷ steps) p (i, is) =
      ap (resume (λ _. compensate_each platform steps)) (compensate_step_inert step p i)
      ∙ compensate_each_inert steps p is

  pub compensate_all_inert :
      (message : Text) (steps : List (Step W E)) (w : W) (states : States) (state : ProcessState)
      (done : List (Step W E))
      → All IsInert steps
      → (states' : States) × (compensate_all platform message steps (closed w states state done)
          ≡ (ok tt, closed w states' state done))
  compensate_all_inert message [] w states state done i = (states, refl)
  compensate_all_inert message (step ∷ steps) w states state done i =
      (_, compensate_each_inert (step ∷ steps) _ i)

  -- After a rollback: the completed steps compensate nothing, and the error goes on.
  pub rolled_back :
      (e : Failure E) (next : Stage platform (Unit {0})) (w : W) (states : States)
      (state : ProcessState) (done : List (Step W E))
      → All IsInert done
      → seen (
          resume {A = Unit {0}}
            (λ _. next)
            ((run_compensation platform (platform.message e) >> lift (throw e))
              (closed w states state done)))
        ≡ (throw e, w)
  unfolding run_compensation
  rolled_back e next w states state done i =
      let (states', h) =
        compensate_all_inert (platform.message e) (keep (λ s. is_some s.compensate) (reverse done))
          w states state done
          (All-keep IsInert (λ s. is_some s.compensate) (reverse done)
            (All-reverse IsInert done i)) in
      rw h refl

  -- A step of the transaction that throws ends the saga.
  pub fails :
      (step : Step W E) (e : Failure E) (next : Stage platform (Unit {0})) (w : W) (states : States)
      (state : ProcessState) (done : List (Step W E))
      → All IsInert done
      → seen (resume (λ _. next) (on_failure platform step e (opened w states state done)))
        ≡ after_rollback platform e (attempt platform platform.uow.rollback w)
  unfolding on_failure
  fails step e next w states state done i = elim (Outcome-cases (platform.uow.rollback w).0) [
    | inl (a, h) ↦ rw h (rolled_back e next _ states state done i)
    | inr (inl (a, h)) ↦ rw h (rolled_back e next _ states state done i)
    | inr (inr (a, h)) ↦ rw h refl
  ]
