-- ===== src/Authentication/SignIn/Continues.antt =====
-- From a sign-in to the refresh of its session: what the saga refresh-session checks of the token that
-- the saga sign-in has issued.
use stocka_server.Prelude.{
  ℕ, ◌+◌, ◌/◌, ◌≡◌, ◌≤◌, ◌<◌, refl, sym, ap, ap₂, ◌∙◌, inl, inr, true, some, arith, Text,
}
use stocka_server.Shared.Outcome.{ok}
use stocka_server.Saga.Retry.{Failure}
use stocka_server.Saga.Process.{States}
use stocka_server.Users.Credential.{Credential}
use stocka_server.Users.Facade.{User, find_user_by_email_or_username}
use stocka_server.Authentication.Services.{AuthError, Server}
use stocka_server.Authentication.Sessions.{Session, session_is_valid, World}
use stocka_server.Authentication.Sessions.Created.{new_session, create_session-eq-ok}
use stocka_server.Authentication.Tokens.{Payload, Issued, refresh_expires_in}
use stocka_server.Authentication.Tokens.Signed.{issue_tokens-IsSigned}
use stocka_server.Authentication.Sagas.{Transaction, Isolates}
use stocka_server.Authentication.Refresh.{RefreshServices, Grant, check_refresh_token}
use stocka_server.Authentication.SignIn.{SignInContext, SignInServices, Entrant, run_sign_in}
use stocka_server.Authentication.SignIn.Admission.{IsAdmitted}
use stocka_server.Authentication.SignIn.Entry.{begun_db, SignsIn}
use stocka_server.Authentication.SignIn.AllOrNothing.{run_sign_in-SignsIn}

module _ {W : Type 0} (sv : SignInServices W) (tx : Transaction W) (lifetime : Text → ℕ) where
  -- The package of tokens counts in seconds and accepts what it has signed as long as its lifetime has
  -- not passed, where `lifetime` reads an `expiresIn` as seconds; it reads the payload back. The tables of users
  -- agree with one another; a session that was saved is found by its hash; and neither saving a session
  -- nor the transaction touches the users.
  pub record Supports : Type 0 where
    pub verifies :
        (signed_at later : ℕ) (expires_in jti token : Text) (payload : Payload)
        → sv.jwt.sign_refresh signed_at expires_in jti payload ≡ ok token
        → later / 1000 < signed_at / 1000 + lifetime expires_in
        → sv.jwt.verify_refresh later token ≡ ok tt
    pub decodes :
        (signed_at : ℕ) (expires_in jti token : Text) (payload : Payload)
        → sv.jwt.sign_refresh signed_at expires_in jti payload ≡ ok token
        → sv.jwt.decode token ≡ some (record { sub = some payload.sub; email = some payload.email })
    pub by_uuid :
        (identifier : Text) (user : User) (credential : Credential) (w : W)
        → find_user_by_email_or_username sv.users identifier w ≡ ok (some (user, credential))
        → sv.users.find_user_by_uuid user.uuid w ≡ ok (some user)
    pub stores :
        (s persisted : Session) (id : ℕ) (w w' : W)
        → sv.sessions.persist_with_credential s id w ≡ (ok persisted, w')
        → sv.sessions.find_by_token_hash s.token_hash w' ≡ ok (some s)
    pub users_apart :
        (uuid : Text) (s : Session) (id : ℕ) (w : W)
        → sv.users.find_user_by_uuid uuid (sv.sessions.persist_with_credential s id w).1
          ≡ sv.users.find_user_by_uuid uuid w
    pub users_commit :
        (uuid : Text) (w : W)
        → sv.users.find_user_by_uuid uuid (tx.commit w).1 ≡ sv.users.find_user_by_uuid uuid w
    pub sessions_commit :
        (hash : Text) (w : W)
        → sv.sessions.find_by_token_hash hash (tx.commit w).1
          ≡ sv.sessions.find_by_token_hash hash w

  -- The services of refresh-session: the same, with its own fresh ids.
  abbrev pub refresher : Text → Text → RefreshServices W
  refresher jti session_uuid = record {
    sessions = sv.sessions;
    users = sv.users;
    facades = sv.facades;
    jwt = sv.jwt;
    hash_token = sv.hash_token;
    in_seven_days = sv.in_seven_days;
    jti = jti;
    session_uuid = session_uuid;
  }

  new_session-Valid :
      (uuid : Text) (account_id : ℕ) (hash : Text) (expires_at now : ℕ)
      → now ≤ expires_at
      → session_is_valid now (new_session uuid account_id hash expires_at) ≡ true
  new_session-Valid uuid account_id hash expires_at now h = ground arith

  module _ (jti session_uuid token : Text) (later : ℕ) (w : W) (session : Session) (user : User)
      (email : Text) where
    -- A token passes the checks if all that they read is in order.
    checks :
        sv.sessions.find_by_token_hash (sv.hash_token token) w ≡ ok (some session)
        → session_is_valid later session ≡ true
        → sv.jwt.verify_refresh later token ≡ ok tt
        → sv.jwt.decode token ≡ some (record { sub = some user.uuid; email = some email })
        → sv.users.find_user_by_uuid user.uuid w ≡ ok (some user)
        → check_refresh_token (refresher jti session_uuid) later token w
          ≡ ok (record { session = session; user = user; email = some email })
    unfolding check_refresh_token
    checks found valid genuine decoded is_user =
        rw found (rw valid (rw genuine (rw decoded (rw is_user refl))))

module _ {W R : Type 0} (sv : SignInServices W) (tx : Transaction W)
    (message : Failure AuthError → Text) (now : ℕ) (rows saved : W → R)
    (isolates : Isolates tx rows saved)
    (persist-saved : (session : Session) (id : ℕ) (w : W)
      → saved (sv.sessions.persist_with_credential session id w).1 ≡ saved w)
    (lifetime : Text → ℕ) (supports : Supports sv tx lifetime) (identifier password : Text)
    (s : Server W) (jti session_uuid : Text) (later : ℕ) where
  -- Who has signed in holds a refresh token that passes the checks of refresh-session: it is that of
  -- the account and the user that the password was checked for.
  pub record Continues (q : World SignInContext W) : Type 0 where
    pub entrant : Entrant
    pub issued : Issued
    pub admitted :
        IsAdmitted sv identifier password (begun_db sv tx message now identifier password s) entrant
    pub answer : q.ctx.issued ≡ some issued
    pub grant : Grant
    pub checked :
        check_refresh_token
          (refresher sv tx lifetime jti session_uuid)
          later
          issued.refresh_token
          q.server.db
        ≡ ok grant
    pub same_user : grant.user ≡ entrant.user
    pub same_account : grant.session.account_id ≡ entrant.credential.account_id
    pub same_email : grant.email ≡ some entrant.credential.email

  SignsIn-Continues :
      (q : World SignInContext W)
      → later ≤ sv.in_seven_days now
      → later / 1000 < now / 1000 + lifetime (refresh_expires_in sv.jwt)
      → SignsIn sv tx message now identifier password s q
      → Continues q
  SignsIn-Continues q h alive r =
      let begun = begun_db sv tx message now identifier password s in
      let user = r.entrant.user in
      let credential = r.entrant.credential in
      let token = r.issued.refresh_token in
      let hash = sv.hash_token token in
      let session = new_session sv.session_uuid credential.account_id hash (sv.in_seven_days now) in
      let made : r.opened.session.0 ≡ session =
        create_session-eq-ok sv.session_uuid credential.account_id hash (sv.in_seven_days now)
          r.opened.session r.opened.created in
      let stored : sv.sessions.persist_with_credential session r.opened.id begun
          ≡ (ok r.persisted, r.db) =
        ap (λ s. sv.sessions.persist_with_credential s r.opened.id begun) (sym made)
        ∙ r.opened.stored in
      let found : sv.sessions.find_by_token_hash hash q.server.db ≡ ok (some session) =
        ap (sv.sessions.find_by_token_hash hash) r.committed
        ∙ supports.sessions_commit hash r.db
        ∙ supports.stores session r.persisted r.opened.id begun r.db stored in
      let signed =
        issue_tokens-IsSigned sv.facades sv.jwt now sv.jti user.uuid credential.email begun r.issued
          r.opened.issued.signed in
      let decoded : sv.jwt.decode token
          ≡ some (record { sub = some user.uuid; email = some credential.email }) =
        supports.decodes now (refresh_expires_in sv.jwt) sv.jti token signed.payload signed.signed
        ∙ ap₂ (λ sub email. some (record { sub = some sub; email = some email })) signed.for_user
            signed.for_email in
      let is_user : sv.users.find_user_by_uuid user.uuid q.server.db ≡ ok (some user) =
        ap (sv.users.find_user_by_uuid user.uuid) r.committed
        ∙ supports.users_commit user.uuid r.db
        ∙ ap (λ t. sv.users.find_user_by_uuid user.uuid t.1) (sym stored)
        ∙ supports.users_apart user.uuid session r.opened.id begun
        ∙ supports.by_uuid identifier user credential begun r.opened.issued.admitted.found in
      record {
        entrant = r.entrant;
        issued = r.issued;
        admitted = r.opened.issued.admitted;
        answer = r.answer;
        grant = record { session = session; user = user; email = some credential.email };
        checked =
            checks sv tx lifetime jti session_uuid token later q.server.db session user
              credential.email found
              (new_session-Valid sv tx lifetime sv.session_uuid credential.account_id hash
                (sv.in_seven_days now) later h)
              (supports.verifies now later (refresh_expires_in sv.jwt) sv.jti token signed.payload
                signed.signed alive)
              decoded is_user;
        same_user = refl;
        same_account = refl;
        same_email = refl;
      }

  -- A sign-in that ended well has issued a refresh token that refresh-session accepts for the same user,
  -- account and email, at any time at which neither the session's seven days are over nor the lifetime
  -- that is configured for the token (seven days where none is).
  pub run_sign_in-Continues :
      (id correlation_id : Text) (states : States)
      → later ≤ sv.in_seven_days now
      → later / 1000 < now / 1000 + lifetime (refresh_expires_in sv.jwt)
      → (run_sign_in sv tx message now id correlation_id identifier password s states).0 ≡ ok tt
      → Continues (run_sign_in sv tx message now id correlation_id identifier password s states).1
  run_sign_in-Continues id correlation_id states h alive ended =
      let t = run_sign_in sv tx message now id correlation_id identifier password s states in
      elim (run_sign_in-SignsIn sv tx message now rows saved isolates persist-saved id
        correlation_id identifier password s states) [
          | inl (_, r) ↦ SignsIn-Continues t.1 h alive r
          | inr ((e, thrown), _, _) ↦ cc (ended, thrown)
        ]
