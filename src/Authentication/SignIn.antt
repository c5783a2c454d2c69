-- ===== src/Authentication/SignIn.antt =====
-- The saga sign-in: src/bounded-contexts/authentication/application/sagas/sign-in.
pub mod Admission
pub mod Entry
pub mod AllOrNothing
pub mod Continues
use stocka_server.Prelude.{
  ℕ, zero, suc, Bool, false, not, Option, none, some, is_some, List, [], ◌∷◌, ◌++◌, if◌then◌else◌,
  Text, codes,
}
use stocka_server.Shared.Outcome.{Outcome, ok, throw, and_then, ◌>>=◌, ◌>>◌}
use stocka_server.Shared.Bus.{ask, store, emit}
use stocka_server.Saga.Retry.{Failure}
use stocka_server.Saga.Process.{States}
use stocka_server.Saga.Engine.{Step, run}
use stocka_server.Users.Credential.{Credential, has_password, is_pending}
use stocka_server.Users.Facade.{User, UserContracts, Owned, find_user_by_email_or_username}
use stocka_server.Authentication.Services.{
  AuthError, invalid_credentials, account_deactivated, email_not_verified, user_signed_in, Server,
  from_users,
}
use stocka_server.Authentication.Sessions.{
  Session, Applied, restored, create_session, SessionContract, World, StepTask, on_server, evaluate,
  read_context, required, assign, step_of,
}
use stocka_server.Authentication.Sagas.{Transaction, saga_platform}
use stocka_server.Authentication.Tokens.{
  Facades, Jwt, Issued, issue_tokens, non_empty, refresh_token_of, truthy_id,
}

-- `SignInSagaContext`; what the step generate-tokens sets is one field.
pub record SignInContext : Type 0 where
  pub email_or_username : Text
  pub password : Text
  pub user : Option User
  pub credential : Option Credential
  pub username : Option Text
  pub issued : Option Issued
  pub session : Option (Applied Session)

pub record SignInServices (W : Type 0) : Type 0 where
  pub sessions : SessionContract W
  pub users : UserContracts W
  pub facades : Facades W
  pub jwt : Jwt
  pub compare_passwords : Text → Text → Outcome AuthError Bool  -- bcrypt
  pub hash_token : Text → Text
  pub in_seven_days : ℕ → ℕ
  pub jti : Text  -- the fresh uuids of one run
  pub session_uuid : Text

-- `TIMING_SAFE_DUMMY_HASH`
abbrev pub timing_safe_dummy_hash : Text
timing_safe_dummy_hash = codes "$2b$12$KIXeWNxKrZlGLzFPmwpMfuNhYFxR7J3v5rRBqZK0kH8CdlIuGkEYi"

-- Who has signed in, and under which name.
pub record Entrant : Type 0 where
  pub user : User
  pub credential : Credential
  pub username : Text

-- `credential.passwordHash ?? ''`
abbrev pub hash_of : Credential → Text
hash_of c = or_empty c.password_hash
  where
    or_empty : Option Text → Text
    or_empty none = []
    or_empty (some hash) = hash

-- `username ?? credential.email`
abbrev pub name_or : Text → Option Text → Text
name_or email none = email
name_or email (some name) = name

abbrev pub sign_in_context : Text → Text → SignInContext
sign_in_context identifier password = record {
  email_or_username = identifier;
  password = password;
  user = none;
  credential = none;
  username = none;
  issued = none;
  session = none;
}

module _ {W : Type 0} (sv : SignInServices W) where
  -- No such account, or one without a password: a password is compared all the same.
  abbrev pub reject : Text → Outcome AuthError Entrant
  reject password =
      and_then (sv.compare_passwords password timing_safe_dummy_hash) λ _. throw invalid_credentials

  -- The checks after the comparison of the passwords, and the name.
  abbrev pub admit : User → Credential → Bool → W → Outcome AuthError Entrant
  admit user credential valid w =
      if not valid
      then throw invalid_credentials
      else if is_some user.archived_at
      then throw account_deactivated
      else if is_pending credential.status
      then throw email_not_verified
      else and_then (sv.facades.find_username user.uuid w) λ name.
        ok (record {
          user = user;
          credential = credential;
          username = name_or credential.email name;
        })

  abbrev pub check_owner : Text → Option Owned → W → Outcome AuthError Entrant
  check_owner password none w = reject password
  check_owner password (some (user, credential)) w =
      if not (has_password credential)
      then reject password
      else and_then (sv.compare_passwords password (hash_of credential))
          λ valid. admit user credential valid w

  -- The reads of `ValidateCredentialsStep`
  unfoldable pub check_credentials : Text → Text → W → Outcome AuthError Entrant
  check_credentials identifier password w =
      and_then (from_users (find_user_by_email_or_username sv.users identifier w))
        λ owner. check_owner password owner w

  abbrev pub SignIn : Type 0
  SignIn = StepTask SignInContext W

  -- `ValidateCredentialsStep`
  unfoldable pub validate_credentials : SignIn
  validate_credentials = do
    identifier ← read_context (λ c. c.email_or_username)
    password ← read_context (λ c. c.password)
    entrant ← on_server (ask (check_credentials identifier password))
    assign (λ c. record c {
      user = some entrant.user;
      credential = some entrant.credential;
      username = some entrant.username;
    })

  -- `GenerateSignInTokensStep`
  unfoldable pub generate_tokens : ℕ → SignIn
  generate_tokens now = do
    user ← required (λ c. c.user)
    credential ← required (λ c. c.credential)
    issued ← on_server (ask (issue_tokens sv.facades sv.jwt now sv.jti user.uuid credential.email))
    assign (λ c. record c { issued = some issued })

  abbrev pub store_session : ℕ → ℕ → ℕ → Text → SignIn
  store_session now account_id id token = do
    created ←
        evaluate
          (create_session sv.session_uuid account_id (sv.hash_token token) (sv.in_seven_days now))
    persisted ← on_server (store (sv.sessions.persist_with_credential created.0 id))
    assign (λ c. record c { session = some (restored persisted) })

  -- `CreateSignInSessionStep`: the session that the repository answers with was restored from its row.
  unfoldable pub create_sign_in_session : ℕ → SignIn
  create_sign_in_session now = do
    _user ← required (λ c. c.user)
    token ← required (λ c. non_empty (refresh_token_of c.issued))
    credential ← required (λ c. c.credential)
    id ← required (λ c. truthy_id credential.id)
    store_session now credential.account_id id token

  -- `PublishSignInEventsStep`
  unfoldable pub publish_sign_in_events : SignIn
  publish_sign_in_events = do
    user ← required (λ c. c.user)
    session ← required (λ c. c.session)
    on_server (emit session.1)
    assign (λ c. record c { session = some (restored session.0) })
    on_server (emit (user_signed_in user.uuid ∷ []))

  abbrev pub sign_in_inside : ℕ → List (Step (World SignInContext W) AuthError)
  sign_in_inside now =
      step_of (codes "generate-tokens") (generate_tokens now) none
      ∷ step_of (codes "create-session") (create_sign_in_session now) none
      ∷ []

  abbrev pub sign_in_after : List (Step (World SignInContext W) AuthError)
  sign_in_after = step_of (codes "publish-events") publish_sign_in_events (some false) ∷ []

  -- `defineSteps`
  abbrev pub sign_in_steps : ℕ → List (Step (World SignInContext W) AuthError)
  sign_in_steps now =
      step_of (codes "validate-credentials") validate_credentials none
      ∷ (sign_in_inside now ++ sign_in_after)

  -- `SignInSaga`, on a context with only its input.
  unfoldable pub run_sign_in :
      Transaction W
      → (Failure AuthError → Text)
      → ℕ
      → Text
      → Text
      → Text
      → Text
      → Server W
      → States
      → Outcome (Failure AuthError) (Unit {0}) × World SignInContext W × States
  run_sign_in tx message now id correlation_id identifier password s states =
      run (saga_platform tx message now (codes "sign-in")) id correlation_id (sign_in_steps now)
        (record { ctx = sign_in_context identifier password; server = s }) states
