-- ===== src/Onboarding/Handlers.antt =====
-- The commands of src/bounded-contexts/onboarding/application/commands that start a session and save a
-- step. The repository (`IOnboardingSessionContract`) and the check of a uuid are parameters.
pub mod Again
use stocka_server.Prelude.{
  ℕ, ◌≡◌, sym, ap, ◌∙◌, Bool, true, Option, none, some, if◌then◌else◌, Text,
}
use stocka_server.Shared.Outcome.{Outcome, ok, err, throw, and_then, Act}
use stocka_server.Onboarding.Session.{
  Value, Object, Number, OnboardingError, not_found, already_completed, invalid_uuid, Session,
  in_progress, create_session, save_progress, is_completed,
}
use stocka_server.Onboarding.Session.Progress.{Advances}

pub record SessionContract (W : Type 0) : Type 0 where
  pub find_by_user_uuid : Text → W → Outcome OnboardingError (Option Session)
  pub save : Session → Act W OnboardingError Session

module _ {W : Type 0} (contract : SessionContract W) where
  abbrev pub save_result : Outcome OnboardingError Session → Act W OnboardingError Session
  save_result (ok s) w = contract.save s w
  save_result (err e) w = (err e, w)
  save_result (throw e) w = (throw e, w)

  module _ (section : Text) (answers : Object Value) (step : Option Number) (now : ℕ) where
    abbrev pub save_found : Outcome OnboardingError (Option Session) → Act W OnboardingError Session
    save_found (ok none) w = (err not_found, w)
    save_found (ok (some s)) w =
        if is_completed s
        then (err already_completed, w)
        else save_result (save_progress section answers step now s) w
    save_found (err e) w = (err e, w)
    save_found (throw e) w = (throw e, w)

    -- `SaveOnboardingStepHandler.execute`
    unfoldable pub save_onboarding_step : Text → Act W OnboardingError Session
    save_onboarding_step user w = save_found (contract.find_by_user_uuid user w) w

    -- The session `s` of the user was in progress, and `t` was handed to the repository.
    pub record SavesStep (user : Text) (w : W) (result : Outcome OnboardingError Session × W)
        : Type 0 where
      pub before : Session
      pub after : Session
      pub found : contract.find_by_user_uuid user w ≡ ok (some before)
      pub was_open : before.status ≡ in_progress
      pub advances : Advances section answers before after
      pub stored : result ≡ contract.save after w

  module _ (is_uuid : Text → Bool) (now : ℕ) where
    abbrev pub start_found :
        Text → Outcome OnboardingError (Option Session) → Act W OnboardingError Session
    start_found user (ok none) w =
        save_result (if is_uuid user then ok (create_session user now) else throw invalid_uuid) w
    start_found user (ok (some s)) w = (if is_completed s then err already_completed else ok s, w)
    start_found user (err e) w = (err e, w)
    start_found user (throw e) w = (throw e, w)

    -- `StartOnboardingHandler.execute`
    unfoldable pub start_onboarding : Text → Act W OnboardingError Session
    start_onboarding user w = start_found user (contract.find_by_user_uuid user w) w
