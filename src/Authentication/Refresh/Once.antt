-- ===== src/Authentication/Refresh/Once.antt =====
-- The old token of a refresh: it is not accepted a second time.
use stocka_server.Prelude.{ℕ, ◌≡◌, sym, ap, ◌∙◌, inl, inr, none, some, Text, codes}
use stocka_server.Shared.Outcome.{ok, and_then-eq-ok, ok-injective}
use stocka_server.Saga.Retry.{Failure}
use stocka_server.Saga.Process.{States}
use stocka_server.Authentication.Services.{AuthError, Server}
use stocka_server.Authentication.Sessions.{Session, SessionContract, World}
use stocka_server.Authentication.Sessions.Created.{create_session-eq-ok}
use stocka_server.Authentication.Tokens.{Payload, issue_tokens, refresh_expires_in}
use stocka_server.Authentication.Tokens.Signed.{issue_tokens-IsSigned}
use stocka_server.Authentication.Sagas.{Transaction, Isolates}
use stocka_server.Authentication.Sagas.Atomic.{Untouched}
use stocka_server.Authentication.Refresh.{RefreshContext, RefreshServices, run_refresh_session}
use stocka_server.Authentication.Refresh.Rotation.{start}
use stocka_server.Authentication.Refresh.Completion.{Rotates}
use stocka_server.Authentication.Refresh.AllOrNothing.{IsInTransaction, run_refresh_session-Rotates}

-- The table of sessions: the hash of a token stands in one row at most, a session that is archived is
-- not found any more, and one is found by its own hash only.
pub record Forgets {W : Type 0} (sessions : SessionContract W) (tx : Transaction W) : Type 0 where
  pub hides :
      (hash : Text) (s : Session) (w w' : W)
      → sessions.find_by_token_hash hash w ≡ ok (some s)
      → sessions.archive s.uuid w ≡ (ok tt, w')
      → sessions.find_by_token_hash hash w' ≡ ok none
  pub apart :
      (hash : Text) (s : Session) (w : W)
      → (s.token_hash ≡ hash → ⊥)
      → sessions.find_by_token_hash hash (sessions.persist s w).1
        ≡ sessions.find_by_token_hash hash w
  pub apart_begin :
      (hash : Text) (w : W)
      → sessions.find_by_token_hash hash (tx.begin w).1 ≡ sessions.find_by_token_hash hash w
  pub apart_commit :
      (hash : Text) (w : W)
      → sessions.find_by_token_hash hash (tx.commit w).1 ≡ sessions.find_by_token_hash hash w

module _ {W R : Type 0} (sv : RefreshServices W) (tx : Transaction W)
    (message : Failure AuthError → Text) (now : ℕ) (rows saved : W → R)
    (isolates : Isolates tx rows saved)
    (transactional : IsInTransaction sv tx message now rows saved isolates)
    (forgets : Forgets sv.sessions tx) (token : Text) where
  -- No token that this run can sign has the hash of the old one.
  abbrev pub IsFresh : Type 0
  IsFresh =
      (payload : Payload) (signed : Text)
      → sv.jwt.sign_refresh now (refresh_expires_in sv.jwt) sv.jti payload ≡ ok signed
      → sv.hash_token signed ≡ sv.hash_token token
      → ⊥

  Rotates-forgotten :
      (s : Server W) (q : World RefreshContext W)
      → IsFresh
      → Rotates sv tx message now token s q
      → sv.sessions.find_by_token_hash (sv.hash_token token) q.server.db ≡ ok none
  Rotates-forgotten s q fresh r =
      let hash = sv.hash_token token in
      let issued = r.replaced.issued in
      let session = r.replaced.session.0 in
      let (tokens, issue, named) =
        and_then-eq-ok
          (issue_tokens sv.facades sv.jwt now sv.jti r.grant.user.uuid issued.email r.archived_db) _
          issued.signed in
      let (name, is_named, h) =
        and_then-eq-ok (sv.facades.find_username r.grant.user.uuid r.archived_db) _ named in
      let signed =
        issue_tokens-IsSigned sv.facades sv.jwt now sv.jti r.grant.user.uuid issued.email
          r.archived_db tokens issue in
      let same_token : tokens.refresh_token ≡ r.tokens.0.refresh_token =
        ap (λ t. t.0.refresh_token) (ok-injective h) in
      let other : session.token_hash ≡ hash → ⊥ = λ same.
        fresh signed.payload tokens.refresh_token signed.signed (
          ap sv.hash_token same_token
          ∙ sym (ap (λ s. s.token_hash) (create_session-eq-ok _ _ _ _ _ r.replaced.created))
          ∙ same) in
      ap (sv.sessions.find_by_token_hash hash) r.committed
      ∙ forgets.apart_commit hash r.stored_db
      ∙ ap (λ t. sv.sessions.find_by_token_hash hash t.1) (sym r.replaced.stored)
      ∙ forgets.apart hash session r.archived_db other
      ∙ forgets.hides hash r.grant.session _ r.archived_db issued.done.granted.stored
          issued.done.archived

  module _ (id correlation_id : Text) (s : Server W) (states : States) where
    -- The services of another run, which has its own fresh ids.
    abbrev another : Text → Text → RefreshServices W
    another jti session_uuid = record sv { jti = jti; session_uuid = session_uuid }

    -- A refresh token is used once: after a run of refresh-session that ended well, another run with the
    -- same token throws, whatever its ids and its time, and leaves the rows and the event bus as they
    -- were, if the token that the first run signed has another hash.
    pub run_refresh_session_once :
        (jti session_uuid id' correlation_id' : Text) (later : ℕ)
        → IsFresh
        → (run_refresh_session sv now tx message id correlation_id token s states).0 ≡ ok tt
        → let first = run_refresh_session sv now tx message id correlation_id token s states in
          let second =
            run_refresh_session
              (another jti session_uuid)
              later
              tx
              message
              id'
              correlation_id'
              token
              first.1.server
              first.2 in
          Untouched tx message later
            (codes "refresh-session")
            rows
            saved
            isolates
            (start (another jti session_uuid) tx message later token first.1.server)
            (second.0, second.1)
    run_refresh_session_once jti session_uuid id' correlation_id' later fresh h =
        let first = run_refresh_session sv now tx message id correlation_id token s states in
        let forgotten : sv.sessions.find_by_token_hash (sv.hash_token token) first.1.server.db
            ≡ ok none =
          elim (run_refresh_session-Rotates sv tx message now rows saved isolates transactional id
            correlation_id token s states) [
              | inl (_, r) ↦ Rotates-forgotten s first.1 fresh r
              | inr ((e, t), _, _) ↦ cc (h, t)
            ] in
        let again : IsInTransaction (another jti session_uuid) tx message later rows saved
            isolates =
          record {
            persist-saved = transactional.persist-saved;
            archive-saved = transactional.archive-saved;
          } in
        elim (run_refresh_session-Rotates (another jti session_uuid) tx message later rows saved
          isolates again id' correlation_id' token first.1.server first.2) [
            | inl (_, r) ↦ cc (
              forgets.apart_begin (sv.hash_token token) first.1.server.db,
              forgotten,
              r.replaced.issued.done.granted.stored,
            )
            | inr u ↦ u
          ]
