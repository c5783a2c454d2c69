-- ===== src/Authentication/Services.antt =====
-- What the handlers of the authentication context share: their errors, their events, the server that
-- they run on, and the facade of the user context, which they reach through the mediator.
use stocka_server.Prelude.{ℕ, ◌≡◌, Bool, Option, Text}
use stocka_server.Shared.Outcome.{Outcome, ok, err, throw, Act}
use stocka_server.Shared.Bus.{Bus}
use stocka_server.Users.Credential.{UserError}

pub data PasswordFault : Type 0 where
  too_short no_uppercase no_digit no_special : PasswordFault

pub data AuthError : Type 0 where
  invalid_verification_code user_already_verified max_resends_exceeded : AuthError
  resend_cooldown_active : ℕ → AuthError
  token_expired invalid_credentials account_deactivated email_not_verified : AuthError
  email_already_exists username_already_exists : AuthError
  invalid_password : PasswordFault → AuthError
  empty_code_hash empty_token_hash : AuthError
  not_set : AuthError  -- of a field of a saga's context, by an earlier step
  user_error : UserError → AuthError
  database_error : ℕ → AuthError

pub data AuthEvent : Type 0 where
  email_verification_requested : ℕ → Text → Text → AuthEvent
  email_verification_completed : Text → Text → Text → AuthEvent
  verification_code_resent : ℕ → Text → Text → ℕ → Text → AuthEvent
  password_reset_requested : ℕ → Text → Text → Text → Bool → Option Text → AuthEvent
  password_reset_completed : ℕ → AuthEvent
  user_password_reset : ℕ → Text → AuthEvent
  session_created : Text → ℕ → AuthEvent
  session_archived : Text → AuthEvent
  session_refreshed : Text → Text → AuthEvent
  user_signed_in user_signed_out : Text → AuthEvent
  user_signed_up : Text → Text → AuthEvent

abbrev pub Server : Type 0 → Type 0
Server W = Bus W AuthEvent

abbrev pub Handler : Type 0 → Type 0 → Type 0
Handler W A = Act (Server W) AuthError A

-- What the user context throws passes through.
abbrev pub from_users : {A : Type 0} → Outcome UserError A → Outcome AuthError A
from_users (ok a) = ok a
from_users (err e) = err (user_error e)
from_users (throw e) = throw (user_error e)

pub from_users-eq-ok :
    {A : Type 0} (r : Outcome UserError A) {a : A}
    → ◌≡◌ {A = Outcome AuthError A} (from_users r) (ok a)
    → r ≡ ok a
from_users-eq-ok (ok a) h = cc
from_users-eq-ok (err e) h = cc
from_users-eq-ok (throw e) h = cc
