-- ===== src/Authentication/Sagas/Quiet.antt =====
-- Steps of sagas that leave the transaction's savepoint and the event bus alone, by their parts.
use stocka_server.Prelude.{ℕ, ◌≡◌, refl, ap, inl, false, Option, none, some, List, Text}
use stocka_server.Shared.Outcome.{Act}
use stocka_server.Shared.Rules.{Leaves, Leaves-bind}
use stocka_server.Shared.Bus.{store}
use stocka_server.Saga.Retry.{Failure}
use stocka_server.Saga.Engine.{execute_step}
use stocka_server.Saga.Engine.TwoPhase.{IsInside, IsAfter}
use stocka_server.Authentication.Services.{AuthError, AuthEvent}
use stocka_server.Authentication.Sessions.{
  World, StepTask, read_context, or_not_set, required, on_server, step_of,
}
use stocka_server.Authentication.Sagas.{Transaction, Isolates}
use stocka_server.Authentication.Sagas.Atomic.{IsContained}

module _ {C W : Type 0} (name : Text) (task : StepTask C W) where
  -- Where the steps of the context stand.
  pub IsInside-step : IsInside (step_of name task none)
  IsInside-step = record { inert = record { no_retry = refl; no_effect = inl refl }; inside = refl }

  pub IsAfter-step : IsAfter (step_of name task (some false))
  IsAfter-step = record { inert = record { no_retry = refl; no_effect = inl refl }; outside = refl }

module _ {C W R : Type 0} (saved : W → R) where
  -- What a contained step leaves as it is.
  abbrev pub outside : World C W → R × List AuthEvent
  outside p = (saved p.server.db, p.server.published)

  abbrev pub IsQuiet : {A : Type 0} → Act (World C W) (Failure AuthError) A → Type 0
  IsQuiet m = Leaves outside m

  or_not_set-IsQuiet : {A : Type 0} (o : Option A) → IsQuiet (or_not_set o)
  or_not_set-IsQuiet none p = refl
  or_not_set-IsQuiet (some a) p = refl

  pub required-IsQuiet : {A : Type 0} (field : C → Option A) → IsQuiet (required field)
  required-IsQuiet field =
      Leaves-bind outside (read_context field) or_not_set (λ p. refl) or_not_set-IsQuiet

  pub store-IsQuiet :
      {A : Type 0} (m : Act W AuthError A)
      → ((w : W) → saved (m w).1 ≡ saved w)
      → IsQuiet (on_server (store m))
  store-IsQuiet m h p = ap (λ r. (r, p.server.published)) (h p.server.db)

  module _ (tx : Transaction W) (message : Failure AuthError → Text) (now : ℕ) (name : Text)
      (rows : W → R) (isolates : Isolates tx rows saved) where
    pub IsContained-step :
        (step : Text) (task : StepTask C W)
        → IsQuiet task
        → IsContained tx message now name rows saved isolates (step_of step task none)
    unfolding execute_step
    IsContained-step step task h = record {
      same_saved = λ p. ap (λ v. v.0) (h p);
      same_published = λ p. ap (λ v. v.1) (h p);
    }
