-- ===== src/Authentication/Sessions.antt =====
-- Sessions (src/bounded-contexts/user/account/session), the world of the sagas of the authentication
-- context, and the command sign-out.
pub mod Created
use stocka_server.Prelude.{
  ℕ, Bool, not, ◌&&◌, Option, none, some, is_some, List, [], ◌∷◌, ltb, Text, trim,
}
use stocka_server.Shared.Outcome.{Outcome, ok, err, throw, Act, ◌>>=◌, ◌>>◌, pure, and_then}
use stocka_server.Shared.Bus.{ask, store, emit}
use stocka_server.Saga.Retry.{Failure, raised}
use stocka_server.Saga.Engine.{Step}
use stocka_server.Users.Facade.{User, UserContracts, find_by_account_id}
use stocka_server.Authentication.Services.{
  AuthError, empty_token_hash, not_set, AuthEvent, session_created, session_archived,
  user_signed_out, Server, Handler, from_users,
}
use stocka_server.Authentication.VerificationToken.{blank_or}

-- `SessionAggregate`
pub record Session : Type 0 where
  pub uuid : Text
  pub account_id : ℕ
  pub token_hash : Text
  pub expires_at : ℕ
  pub archived_at : Option ℕ

-- An aggregate with the events that it has applied and not yet published. One that a repository
-- answers with was restored from its row and has none.
abbrev pub Applied : Type 0 → Type 0
Applied A = A × List AuthEvent

abbrev pub restored : {A : Type 0} → A → Applied A
restored a = (a, [])

-- `new TokenHashVO(value)`
unfoldable pub create_token_hash : Text → Outcome AuthError Text
create_token_hash value = blank_or empty_token_hash (trim value) value

-- `SessionAggregate.create`
unfoldable pub create_session : Text → ℕ → Text → ℕ → Outcome AuthError (Applied Session)
create_session uuid account_id token_hash expires_at =
    and_then (create_token_hash token_hash) λ hash.
      let session : Session = record {
        uuid = uuid;
        account_id = account_id;
        token_hash = hash;
        expires_at = expires_at;
        archived_at = none;
      } in
      ok (session, session_created uuid account_id ∷ [])

-- `isValid`
abbrev pub session_is_valid : ℕ → Session → Bool
session_is_valid now s = not (is_some s.archived_at) && not (ltb s.expires_at now)

-- `ISessionContract`, as far as the context calls it.
pub record SessionContract (W : Type 0) : Type 0 where
  pub find_by_token_hash : Text → W → Outcome AuthError (Option Session)
  pub persist : Session → Act W AuthError Session
  pub persist_with_credential : Session → ℕ → Act W AuthError Session
  pub archive : Text → Act W AuthError (Unit {0})
  pub archive_all_by_account_id : ℕ → Act W AuthError (Unit {0})

-- The world of a saga: its context object, and the server.
pub record World (C W : Type 0) : Type 0 where
  pub ctx : C
  pub server : Server W

abbrev pub StepTask : Type 0 → Type 0 → Type 0
StepTask C W = Act (World C W) (Failure AuthError) (Unit {0})

-- What a step's call of a repository or a port throws; it answers with no `Result`.
abbrev pub raise : {A : Type 0} → Outcome AuthError A → Outcome (Failure AuthError) A
raise (ok a) = ok a
raise (err e) = throw (raised e)
raise (throw e) = throw (raised e)

module _ {C W : Type 0} where
  abbrev pub on_server : {A : Type 0} → Handler W A → Act (World C W) (Failure AuthError) A
  on_server m p = let (r, s) = m p.server in (raise r, record p { server = s })

  abbrev pub throw_error : {A : Type 0} → AuthError → Act (World C W) (Failure AuthError) A
  throw_error e p = (throw (raised e), p)

  abbrev pub evaluate : {A : Type 0} → Outcome AuthError A → Act (World C W) (Failure AuthError) A
  evaluate r p = (raise r, p)

  abbrev pub read_context : {A : Type 0} → (C → A) → Act (World C W) (Failure AuthError) A
  read_context field p = (ok (field p.ctx), p)

  abbrev pub or_not_set : {A : Type 0} → Option A → Act (World C W) (Failure AuthError) A
  or_not_set none = throw_error not_set
  or_not_set (some a) = pure a

  -- `if (!ctx.field) throw new Error(...)`, and the field's value.
  abbrev pub required : {A : Type 0} → (C → Option A) → Act (World C W) (Failure AuthError) A
  required field = read_context field >>= or_not_set

  abbrev pub assign : (C → C) → StepTask C W
  assign change p = (ok tt, record p { ctx = change p.ctx })

  -- A step of a saga of this context: none is retried but where it says so, and none compensates.
  abbrev pub step_of : Text → StepTask C W → Option Bool → Step (World C W) AuthError
  step_of name execute transactional = record {
    name = name;
    execute = execute;
    compensate = none;
    retry = none;
    compensation_retry = none;
    transactional = transactional;
  }

module _ {W : Type 0} (sessions : SessionContract W) (users : UserContracts W)
    (hash_token : Text → Text) where
  abbrev pub publish_sign_out : Session → Option User → Handler W (Unit {0})
  publish_sign_out session none = pure tt
  publish_sign_out session (some user) =
      emit (session_archived session.uuid ∷ user_signed_out user.uuid ∷ [])

  abbrev pub sign_out_of : Option Session → Handler W (Unit {0})
  sign_out_of none = pure tt
  sign_out_of (some session) = do
    store (sessions.archive_all_by_account_id session.account_id)
    user ← ask (λ w. from_users (find_by_account_id users session.account_id w))
    publish_sign_out session user

  -- `SignOutHandler.execute`
  unfoldable pub sign_out : Text → Handler W (Unit {0})
  sign_out refresh_token =
      ask (sessions.find_by_token_hash (hash_token refresh_token)) >>= sign_out_of
