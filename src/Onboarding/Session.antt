-- ===== src/Onboarding/Session.antt =====
-- `OnboardingSessionModel` (src/bounded-contexts/onboarding/domain/models/onboarding-session.model.ts)
-- and the value objects that it wraps. A value object is the number or the text in it.
pub mod Progress
use stocka_server.Prelude.{
  ℕ, ◌≡◌, Bool, true, false, Option, none, some, List, [], ◌∷◌, ltb, leb, if◌then◌else◌, Text,
  codes, text_eq, trim, length,
}
use stocka_server.Shared.Outcome.{Outcome, ok, throw, and_then, Act}

-- A value of a JSON object, as far as it is looked at.
pub data Value : Type 0 where
  null : Value
  text : Text → Value
  other : ℕ → Value

-- `Record<string, unknown>`
abbrev pub Object : Type 0 → Type 0
Object A = List (Text × A)

module _ {A : Type 0} where
  -- `object[key]`
  unfoldable pub lookup : Text → Object A → Option A
  lookup key [] = none
  lookup key ((k, a) ∷ o) = if text_eq k key then some a else lookup key o

  -- `{ ...object, [key]: value }`
  unfoldable pub assign : Text → A → Object A → Object A
  assign key a [] = (key, a) ∷ []
  assign key a ((k, b) ∷ o) = if text_eq k key then (k, a) ∷ o else (k, b) ∷ assign key a o

-- A number of a request: a natural number, one between `n` and `n + 1`, or a negative one.
pub data Number : Type 0 where
  whole between : ℕ → Number
  negative : Number

-- `n > step`
abbrev pub is_beyond : Number → ℕ → Bool
is_beyond (whole n) step = ltb step n
is_beyond (between n) step = leb step n
is_beyond negative step = false

pub data OnboardingPath : Type 0 where
  create join : OnboardingPath

pub data OnboardingStatus : Type 0 where
  in_progress completed : OnboardingStatus

-- The errors of the context, of the database, of the value objects, and the TypeError of a `trim`
-- that is missing.
pub data OnboardingError : Type 0 where
  not_found already_completed invalid_uuid : OnboardingError
  database_error : ℕ → OnboardingError
  step_number invitation_code_empty invitation_code_too_long type_error : OnboardingError

-- `StepNumberVO.create`
abbrev pub create_step : Number → Outcome OnboardingError ℕ
create_step (whole n) = ok n
create_step (between n) = throw step_number
create_step negative = throw step_number

abbrev pub check_code : Text → Outcome OnboardingError Text
check_code [] = throw invitation_code_empty
check_code (c ∷ s) = if ltb 100 (length (c ∷ s)) then throw invitation_code_too_long else ok (c ∷ s)

-- `InvitationCodeVO.create`
abbrev pub create_code : Text → Outcome OnboardingError Text
create_code s = check_code (trim s)

pub record Session : Type 0 where
  pub id : Text
  pub user_uuid : Text
  pub path : Option OnboardingPath
  pub current_step : ℕ
  pub step_data : Object (Object Value)
  pub invitation_code : Option Text
  pub status : OnboardingStatus
  pub created_at : ℕ
  pub updated_at : ℕ

-- The session of `OnboardingSessionModel.create`, once `UUIDVO` has taken the uuid.
abbrev pub create_session : Text → ℕ → Session
create_session user_uuid now = record {
  id = [];
  user_uuid = user_uuid;
  path = none;
  current_step = 0;
  step_data = [];
  invitation_code = none;
  status = in_progress;
  created_at = now;
  updated_at = now;
}

abbrev pub path_of : Option Value → Option OnboardingPath
path_of (some (text s)) =
    if text_eq s (codes "CREATE")
    then some create
    else if text_eq s (codes "JOIN")
    then some join
    else none
path_of (some null) = none
path_of (some (other _)) = none
path_of none = none

abbrev pub some_code : Outcome OnboardingError Text → Outcome OnboardingError (Option Text)
some_code r = and_then r λ s. ok (some s)

abbrev pub code_of : Option Value → Outcome OnboardingError (Option Text)
code_of none = ok none
code_of (some null) = ok none
code_of (some (text s)) = some_code (create_code s)
code_of (some (other _)) = throw type_error

abbrev pub with_code :
    Session → Outcome OnboardingError (Option Text) → Outcome OnboardingError Session
with_code s r = and_then r λ code. ok (record s { invitation_code = code })

-- `if (section === 'path')`
abbrev pub save_path : Text → Object Value → Session → Outcome OnboardingError Session
save_path section answers s =
    if text_eq section (codes "path")
    then with_code (record s { path = path_of (lookup (codes "path") answers) })
        (code_of (lookup (codes "invitationCode") answers))
    else ok s

abbrev pub with_step : Session → Outcome OnboardingError ℕ → Outcome OnboardingError Session
with_step s r = and_then r λ n. ok (record s { current_step = n })

-- `if (currentStep !== undefined && currentStep > this._currentStep.getValue())`
abbrev pub save_step : Option Number → Session → Outcome OnboardingError Session
save_step none s = ok s
save_step (some n) s = if is_beyond n s.current_step then with_step s (create_step n) else ok s

-- `saveProgress`; what it throws leaves a session that nobody keeps.
unfoldable pub save_progress :
    Text → Object Value → Option Number → ℕ → Session → Outcome OnboardingError Session
save_progress section answers step now s =
    and_then
      (save_path section answers (record s { step_data = assign section answers s.step_data }))
      λ p. and_then (save_step step p) λ q. ok (record q { updated_at = now })

abbrev pub status_is_completed : OnboardingStatus → Bool
status_is_completed in_progress = false
status_is_completed completed = true

-- `isCompleted`
abbrev pub is_completed : Session → Bool
is_completed s = status_is_completed s.status
