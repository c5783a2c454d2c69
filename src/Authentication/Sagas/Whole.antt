-- ===== src/Authentication/Sagas/Whole.antt =====
-- A saga of the authentication context as a whole: its steps in one transaction, and one after it.
use stocka_server.Prelude.{
  ℕ, ◌≡◌, sym, subst, ◌⊎◌, false, none, some, List, [], ◌∷◌, ◌++◌, map, All, Text,
}
use stocka_server.Shared.Outcome.{ok}
use stocka_server.Saga.Retry.{Failure}
use stocka_server.Saga.Process.{States}
use stocka_server.Saga.Engine.{Step, run}
use stocka_server.Saga.Engine.TwoPhase.{IsInside, two_phase}
use stocka_server.Saga.Engine.TwoPhase.Run.{run-two_phase}
use stocka_server.Authentication.Services.{AuthError}
use stocka_server.Authentication.Sessions.{World, StepTask, step_of}
use stocka_server.Authentication.Sagas.{Transaction, saga_platform, Isolates}
use stocka_server.Authentication.Sagas.Atomic.{IsContained, Untouched, two_phase-Atomic}
use stocka_server.Authentication.Sagas.After.{Succeeded, ends_well_or}
use stocka_server.Authentication.Sagas.Quiet.{
  IsQuiet, IsContained-step, IsInside-step, IsAfter-step,
}

-- A step's name, and what it does.
abbrev pub Named : Type 0 → Type 0 → Type 0
Named C W = Text × StepTask C W

module _ {C W : Type 0} where
  abbrev pub steps_of : List (Named C W) → List (Step (World C W) AuthError)
  steps_of = map λ t. step_of t.0 t.1 none

  IsInside-steps : (tasks : List (Named C W)) → All IsInside (steps_of tasks)
  IsInside-steps [] = tt
  IsInside-steps (t ∷ tasks) = (IsInside-step t.0 t.1, IsInside-steps tasks)

module _ {C W R : Type 0} (tx : Transaction W) (message : Failure AuthError → Text) (now : ℕ)
    (name : Text) (rows saved : W → R) (isolates : Isolates tx rows saved) where
  IsContained-steps :
      (tasks : List (Named C W))
      → All (λ t. IsQuiet saved t.1) tasks
      → All (IsContained tx message now name rows saved isolates) (steps_of tasks)
  IsContained-steps [] q = tt
  IsContained-steps (t ∷ tasks) (q, qs) = (
    IsContained-step saved tx message now name rows isolates t.0 t.1 q,
    IsContained-steps tasks qs,
  )

  -- It throws and changes nothing, or ends well, and then has done what `Q` says of two phases that
  -- end well.
  pub run-ends_well_or :
      (Q : World C W → Type 0) (first : Named C W) (tasks : List (Named C W)) (last : Named C W)
      (id correlation_id : Text) (p : World C W) (states : States)
      → All (λ t. IsQuiet saved t.1) (first ∷ tasks)
      → let after = step_of last.0 last.1 (some false) ∷ [] in
        Succeeded Q
          (two_phase (saga_platform tx message now name) (steps_of (first ∷ tasks)) after p)
        → let t =
            run
              (saga_platform tx message now name)
              id
              correlation_id
              (step_of first.0 first.1 none ∷ (steps_of tasks ++ after))
              p
              states in
          ((t.0 ≡ ok tt) × Q t.1) ⊎ Untouched tx message now name rows saved isolates p (t.0, t.1)
  run-ends_well_or Q first tasks last id correlation_id p states quiet h =
      let platform = saga_platform tx message now name in
      let after = step_of last.0 last.1 (some false) ∷ [] in
      subst (λ t. ((t.0 ≡ ok tt) × Q t.1) ⊎ Untouched tx message now name rows saved isolates p t)
        (sym (
          run-two_phase platform id correlation_id (step_of first.0 first.1 none) (steps_of tasks)
            after p states (IsInside-step first.0 first.1) (IsInside-steps tasks)
            (IsAfter-step last.0 last.1, tt)))
        (ends_well_or Q (Untouched tx message now name rows saved isolates p) _
          (two_phase-Atomic tx message now name rows saved isolates (steps_of (first ∷ tasks)) after
            (IsContained-steps (first ∷ tasks) quiet) p)
          h)
