-- ===== src/Authentication/PasswordReset.antt =====
-- The reset of a password (src/bounded-contexts/authentication): `PasswordResetTokenAggregate`, the
-- command forgot-password, and the saga reset-password with its steps. What the hash functions and
-- the generator of tokens give, and the local time in an hour, are parameters.
pub mod Reset
pub mod AllOrNothing
pub mod Once
pub mod Reentry
use stocka_server.Prelude.{
  ℕ, Bool, true, false, not, ◌&&◌, ◌||◌, Option, none, some, is_some, List, [], ◌∷◌, ◌++◌,
  if◌then◌else◌, ltb, Text, codes,
}
use stocka_server.Shared.Outcome.{Outcome, ok, throw, and_then, Act, ◌>>=◌, ◌>>◌, pure, lift}
use stocka_server.Shared.Bus.{ask, store, emit}
use stocka_server.Saga.Retry.{Failure}
use stocka_server.Saga.Engine.{Step, run}
use stocka_server.Saga.Process.{States}
use stocka_server.Users.Credential.{Credential, has_password}
use stocka_server.Users.Facade.{UserContracts, Owned, find_user_by_email}
use stocka_server.Authentication.Services.{
  AuthError, token_expired, AuthEvent, password_reset_requested, password_reset_completed,
  user_password_reset, Server, Handler, from_users,
}
use stocka_server.Authentication.VerificationToken.{locale_of}
use stocka_server.Authentication.Password.{create_password}
use stocka_server.Authentication.Sessions.{
  Applied, restored, create_token_hash, SessionContract, World, StepTask, on_server, throw_error,
  evaluate, read_context, required, assign, step_of,
}
use stocka_server.Authentication.Sagas.{Transaction, saga_platform}

pub record ResetToken : Type 0 where
  pub uuid : Text
  pub credential_account_id : ℕ
  pub token_hash : Text
  pub expires_at : ℕ
  pub used_at : Option ℕ
  pub updated_at : ℕ
  pub archived_at : Option ℕ

-- `isValid`
abbrev pub reset_is_valid : ℕ → ResetToken → Bool
reset_is_valid now t =
    not (is_some t.archived_at) && (not (ltb t.expires_at now) && not (is_some t.used_at))

-- `create`
unfoldable pub create_reset_token :
    ℕ
    → Text
    → ℕ
    → Text
    → ℕ
    → Text
    → Text
    → Option Text
    → Bool
    → Option Text
    → Outcome AuthError (Applied ResetToken)
create_reset_token now uuid credential_id token_hash expires_at email plain_token lang is_social
      provider =
    and_then (create_token_hash token_hash) λ hash.
      let token : ResetToken = record {
        uuid = uuid;
        credential_account_id = credential_id;
        token_hash = hash;
        expires_at = expires_at;
        used_at = none;
        updated_at = now;
        archived_at = none;
      } in
      ok (
        token,
        password_reset_requested credential_id email plain_token (locale_of lang) is_social provider
            ∷ [],
      )

-- `markAsUsed`
unfoldable pub mark_reset_used : ℕ → Applied ResetToken → Applied ResetToken
mark_reset_used now (t, events) = (
  record t { used_at = some now; updated_at = now },
  events ++ password_reset_completed t.credential_account_id ∷ [],
)

-- `IPasswordResetTokenContract`
pub record ResetTokenContract (W : Type 0) : Type 0 where
  pub find_by_token_hash : Text → W → Outcome AuthError (Option ResetToken)
  pub persist : ResetToken → Act W AuthError ResetToken

pub record ResetServices (W : Type 0) : Type 0 where
  pub users : UserContracts W
  pub reset_tokens : ResetTokenContract W
  pub sessions : SessionContract W
  pub hash_code : Text → Text  -- also `hashToken`: both are SHA-256
  pub hash_password : Text → Text
  pub in_an_hour : ℕ → ℕ

pub record ForgotRequest : Type 0 where
  pub email : Text
  pub lang : Option Text
  pub now : ℕ
  pub plain_token : Text  -- of `generateSecureToken`
  pub uuid : Text

-- `ResetPasswordSagaContext`
pub record ResetContext : Type 0 where
  pub token : Text
  pub new_password : Text
  pub reset_token : Option (Applied ResetToken)
  pub new_password_hash : Option Text

module _ {W : Type 0} (sv : ResetServices W) where
  module _ (r : ForgotRequest) where
    abbrev pub provider_of : Credential → Option Text
    provider_of c = if has_password c then none else some c.created_with

    abbrev pub persist_and_publish : Applied ResetToken → Handler W (Unit {0})
    persist_and_publish (token, events) =
        store (sv.reset_tokens.persist token) >>= λ _saved. emit events

    abbrev pub request_for : Credential → Option ℕ → Handler W (Unit {0})
    request_for credential none = pure tt
    request_for credential (some id) = do
      created ← lift (
          create_reset_token r.now r.uuid id (sv.hash_code r.plain_token) (sv.in_an_hour r.now)
            r.email r.plain_token r.lang (not (has_password credential)) (provider_of credential))
      persist_and_publish created

    abbrev pub request_owned : Option Owned → Handler W (Unit {0})
    request_owned none = pure tt
    request_owned (some (user, credential)) = request_for credential credential.id

    -- `ForgotPasswordHandler.execute`; its answer is the same text whatever happened.
    unfoldable pub forgot_password : Handler W (Unit {0})
    forgot_password =
        ask (λ w. from_users (find_user_by_email sv.users r.email w)) >>= request_owned

  module _ (now : ℕ) where
    abbrev pub Reset : Type 0
    Reset = StepTask ResetContext W

    -- `if (!resetToken || !resetToken.isValid()) throw`
    abbrev pub valid_or_throw :
        Option ResetToken → Act (World ResetContext W) (Failure AuthError) ResetToken
    valid_or_throw none = throw_error token_expired
    valid_or_throw (some t) = if reset_is_valid now t then pure t else throw_error token_expired

    -- `ValidateResetTokenStep`
    unfoldable pub validate_reset_token : Reset
    validate_reset_token = do
      token ← read_context (λ c. c.token)
      row ← on_server (ask (sv.reset_tokens.find_by_token_hash (sv.hash_code token)))
      reset_token ← valid_or_throw row
      new_password ← read_context (λ c. c.new_password)
      _checked ← evaluate (create_password new_password)
      assign (λ c. record c { reset_token = some (restored reset_token) })

    -- `HashNewPasswordStep`
    unfoldable pub hash_new_password : Reset
    hash_new_password =
        assign (λ c. record c { new_password_hash = some (sv.hash_password c.new_password) })

    -- `MarkTokenUsedStep`
    unfoldable pub mark_token_used : Reset
    mark_token_used = do
      reset_token ← required (λ c. c.reset_token)
      assign (λ c. record c { reset_token = some (mark_reset_used now reset_token) })
      _saved ← on_server (store (sv.reset_tokens.persist (mark_reset_used now reset_token).0))
      pure tt

    -- `ArchiveUserSessionsStep`: what it gives to `archiveAllByAccountId` is the id of the
    -- credential account.
    unfoldable pub archive_user_sessions : Reset
    archive_user_sessions = do
      reset_token ← required (λ c. c.reset_token)
      on_server (store (sv.sessions.archive_all_by_account_id reset_token.0.credential_account_id))

    -- `PublishResetPasswordEventsStep`
    unfoldable pub publish_reset_events : Reset
    publish_reset_events = do
      reset_token ← required (λ c. c.reset_token)
      new_password_hash ← required (λ c. c.new_password_hash)
      on_server (emit reset_token.1)
      assign (λ c. record c { reset_token = some (restored reset_token.0) })
      on_server
          (emit (user_password_reset reset_token.0.credential_account_id new_password_hash ∷ []))

    abbrev pub reset_inside : List (Step (World ResetContext W) AuthError)
    reset_inside =
        step_of (codes "hash-new-password") hash_new_password none
        ∷ step_of (codes "mark-token-used") mark_token_used none
        ∷ step_of (codes "archive-user-sessions") archive_user_sessions none
        ∷ []

    abbrev pub reset_after : List (Step (World ResetContext W) AuthError)
    reset_after = step_of (codes "publish-events") publish_reset_events (some false) ∷ []

    -- `defineSteps`
    abbrev pub reset_steps : List (Step (World ResetContext W) AuthError)
    reset_steps =
        step_of (codes "validate-reset-token") validate_reset_token none
        ∷ (reset_inside ++ reset_after)

    -- `ResetPasswordSaga`, run on a context with only its input.
    unfoldable pub run_reset_password :
        Transaction W
        → (Failure AuthError → Text)
        → Text
        → Text
        → Text
        → Text
        → Server W
        → States
        → Outcome (Failure AuthError) (Unit {0}) × World ResetContext W × States
    run_reset_password tx message id correlation_id token new_password s states =
        run (saga_platform tx message now (codes "reset-password")) id correlation_id reset_steps
          (record {
            ctx = record {
              token = token;
              new_password = new_password;
              reset_token = none;
              new_password_hash = none;
            };
            server = s;
          })
          states
