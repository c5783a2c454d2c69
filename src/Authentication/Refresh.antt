-- ===== src/Authentication/Refresh.antt =====
-- The saga refresh-session: src/bounded-contexts/authentication/application/sagas/refresh-session.
pub mod Grants
pub mod Rotation
pub mod Completion
pub mod AllOrNothing
pub mod Once
use stocka_server.Prelude.{
  ℕ, false, Option, none, some, List, [], ◌∷◌, ◌++◌, if◌then◌else◌, Text, codes,
}
use stocka_server.Shared.Outcome.{Outcome, ok, err, throw, and_then, Act, ◌>>=◌}
use stocka_server.Shared.Bus.{ask, store, emit}
use stocka_server.Saga.Retry.{Failure}
use stocka_server.Saga.Process.{States}
use stocka_server.Saga.Engine.{Step, run}
use stocka_server.Users.Facade.{User, UserContracts}
use stocka_server.Authentication.Services.{
  AuthError, token_expired, not_set, session_refreshed, Server, from_users,
}
use stocka_server.Authentication.Sessions.{
  Session, create_session, session_is_valid, SessionContract, World, StepTask, on_server, evaluate,
  read_context, required, assign, step_of,
}
use stocka_server.Authentication.Sagas.{Transaction, saga_platform}
use stocka_server.Authentication.Tokens.{
  Facades, Decoded, Jwt, Issued, issue_tokens, non_empty, refresh_token_of,
}

-- `RefreshSessionSagaContext`; the tokens and the data that the step generate-new-tokens sets are the field `issued`.
pub record RefreshContext : Type 0 where
  pub refresh_token : Text
  pub old_session_uuid : Option Text
  pub user : Option User
  pub email : Option Text
  pub account_id : Option ℕ
  pub issued : Option Issued
  pub username : Option (Option Text)
  pub new_session_uuid : Option Text

pub record RefreshServices (W : Type 0) : Type 0 where
  pub sessions : SessionContract W
  pub users : UserContracts W
  pub facades : Facades W
  pub jwt : Jwt
  pub hash_token : Text → Text
  pub in_seven_days : ℕ → ℕ
  pub jti : Text  -- the fresh uuids of one run
  pub session_uuid : Text

-- What the step validate-refresh-token has found out.
pub record Grant : Type 0 where
  pub session : Session
  pub user : User
  pub email : Option Text

-- `try { await verify } catch { throw new TokenExpiredException() }`
abbrev pub or_expired : Outcome AuthError (Unit {0}) → Outcome AuthError (Unit {0})
or_expired (ok _) = ok tt
or_expired (err _) = throw token_expired
or_expired (throw _) = throw token_expired

-- `if (!session?.isValid())`
abbrev pub usable : ℕ → Option Session → Outcome AuthError Session
usable now none = throw token_expired
usable now (some s) = if session_is_valid now s then ok s else throw token_expired

-- `isValidJwtPayload`, and the payload's `sub` and `email`
abbrev pub subject_of : Option Decoded → Outcome AuthError (Text × Option Text)
subject_of none = throw token_expired
subject_of (some d) = with_sub d.email d.sub
  where
    with_sub : Option Text → Option Text → Outcome AuthError (Text × Option Text)
    with_sub email none = throw token_expired
    with_sub email (some sub) = ok (sub, email)

abbrev pub present : {A : Type 0} → Option A → Outcome AuthError A
present none = throw token_expired
present (some a) = ok a

-- The context that the controller makes of the cookie.
abbrev pub refresh_context : Text → RefreshContext
refresh_context token = record {
  refresh_token = token;
  old_session_uuid = none;
  user = none;
  email = none;
  account_id = none;
  issued = none;
  username = none;
  new_session_uuid = none;
}

module _ {W : Type 0} (sv : RefreshServices W) (now : ℕ) where
  abbrev pub Refresh : Type 0
  Refresh = StepTask RefreshContext W

  -- The reads of `ValidateRefreshTokenStep`
  unfoldable pub check_refresh_token : Text → W → Outcome AuthError Grant
  check_refresh_token token w =
      and_then (sv.sessions.find_by_token_hash (sv.hash_token token) w) λ row.
        and_then (usable now row) λ session.
          and_then (or_expired (sv.jwt.verify_refresh now token)) λ _.
            and_then (subject_of (sv.jwt.decode token)) λ claims.
              and_then (from_users (sv.users.find_user_by_uuid claims.0 w)) λ row.
                and_then (present row)
                  λ user. ok (record { session = session; user = user; email = claims.1 })

  -- `ValidateRefreshTokenStep`
  unfoldable pub validate_refresh_token : Refresh
  validate_refresh_token = do
    token ← read_context (λ c. c.refresh_token)
    grant ← on_server (ask (check_refresh_token token))
    assign (λ c. record c {
      old_session_uuid = some grant.session.uuid;
      account_id = some grant.session.account_id;
      user = some grant.user;
      email = grant.email;
    })

  -- `ArchiveOldSessionStep`
  unfoldable pub archive_old_session : Refresh
  archive_old_session = do
    uuid ← required (λ c. non_empty c.old_session_uuid)
    on_server (store (sv.sessions.archive uuid))

  -- The queries and signatures of `GenerateRefreshTokensStep`; the username is asked for last.
  abbrev pub issue_with_username : User → Text → W → Outcome AuthError (Issued × Option Text)
  issue_with_username user email w =
      and_then (issue_tokens sv.facades sv.jwt now sv.jti user.uuid email w)
        λ issued. and_then (sv.facades.find_username user.uuid w) λ username. ok (issued, username)

  -- `GenerateRefreshTokensStep`
  unfoldable pub generate_new_tokens : Refresh
  generate_new_tokens = do
    user ← required (λ c. c.user)
    email ← required (λ c. non_empty c.email)
    issued ← on_server (ask (issue_with_username user email))
    assign (λ c. record c { issued = some issued.0; username = some issued.1 })

  abbrev pub store_session : ℕ → Text → Refresh
  store_session account_id token = do
    created ←
        evaluate
          (create_session sv.session_uuid account_id (sv.hash_token token) (sv.in_seven_days now))
    persisted ← on_server (store (sv.sessions.persist created.0))
    assign (λ c. record c { new_session_uuid = some persisted.uuid })

  -- `CreateNewSessionStep`
  unfoldable pub create_new_session : Refresh
  create_new_session = do
    _user ← required (λ c. c.user)
    token ← required (λ c. non_empty (refresh_token_of c.issued))
    account_id ← required (λ c. c.account_id)
    store_session account_id token

  -- `PublishRefreshEventsStep`
  unfoldable pub publish_refresh_events : Refresh
  publish_refresh_events = do
    old ← required (λ c. non_empty c.old_session_uuid)
    new ← required (λ c. non_empty c.new_session_uuid)
    on_server (emit (session_refreshed old new ∷ []))

  abbrev pub refresh_inside : List (Step (World RefreshContext W) AuthError)
  refresh_inside =
      step_of (codes "archive-old-session") archive_old_session none
      ∷ step_of (codes "generate-new-tokens") generate_new_tokens none
      ∷ step_of (codes "create-new-session") create_new_session none
      ∷ []

  abbrev pub refresh_after : List (Step (World RefreshContext W) AuthError)
  refresh_after = step_of (codes "publish-events") publish_refresh_events (some false) ∷ []

  -- `defineSteps`
  abbrev pub refresh_steps : List (Step (World RefreshContext W) AuthError)
  refresh_steps =
      step_of (codes "validate-refresh-token") validate_refresh_token none
      ∷ (refresh_inside ++ refresh_after)

  -- `RefreshSessionSaga`, on a context with only its input.
  unfoldable pub run_refresh_session :
      Transaction W
      → (Failure AuthError → Text)
      → Text
      → Text
      → Text
      → Server W
      → States
      → Outcome (Failure AuthError) (Unit {0}) × World RefreshContext W × States
  run_refresh_session tx message id correlation_id token s states =
      run (saga_platform tx message now (codes "refresh-session")) id correlation_id refresh_steps
        (record { ctx = refresh_context token; server = s }) states
