-- ===== src/Authentication/Refresh/AllOrNothing.antt =====
-- The saga refresh-session as a whole, on the engine of the sagas.
use stocka_server.Prelude.{ℕ, ◌≡◌, refl, ap, ◌⊎◌, inl, inr, [], ◌∷◌, Option-cases, Text, codes}
use stocka_server.Shared.Outcome.{Outcome, ok, Outcome-cases}
use stocka_server.Saga.Retry.{Failure}
use stocka_server.Saga.Process.{States}
use stocka_server.Authentication.Services.{AuthError, Server}
use stocka_server.Authentication.Sessions.{Session, create_session, World}
use stocka_server.Authentication.Sagas.{Transaction, Isolates}
use stocka_server.Authentication.Sagas.Atomic.{Untouched}
use stocka_server.Authentication.Sagas.Whole.{run-ends_well_or}
use stocka_server.Authentication.Sagas.Quiet.{outside, IsQuiet}
use stocka_server.Authentication.Tokens.{non_empty, refresh_token_of}
use stocka_server.Authentication.Refresh.{
  RefreshContext, RefreshServices, check_refresh_token, issue_with_username, store_session,
  validate_refresh_token, archive_old_session, generate_new_tokens, create_new_session,
  publish_refresh_events, run_refresh_session,
}
use stocka_server.Authentication.Refresh.Rotation.{start}
use stocka_server.Authentication.Refresh.Completion.{Rotates, succeeds}

module _ {W R : Type 0} (sv : RefreshServices W) (tx : Transaction W)
    (message : Failure AuthError → Text) (now : ℕ) (rows saved : W → R)
    (isolates : Isolates tx rows saved) where
  -- The repository of sessions writes through the transaction: it leaves what a rollback would bring back.
  pub record IsInTransaction : Type 0 where
    pub persist-saved : (t : Session) (w : W) → saved (sv.sessions.persist t w).1 ≡ saved w
    pub archive-saved : (uuid : Text) (w : W) → saved (sv.sessions.archive uuid w).1 ≡ saved w

  validate-IsQuiet : IsQuiet saved (validate_refresh_token sv now)
  unfolding validate_refresh_token
  validate-IsQuiet p =
      elim (Outcome-cases (check_refresh_token sv now p.ctx.refresh_token p.server.db)) [
        | inl (_, h) ↦ rw h refl
        | inr (inl (_, h)) ↦ rw h refl
        | inr (inr (_, h)) ↦ rw h refl
      ]

  generate-IsQuiet : IsQuiet saved (generate_new_tokens sv now)
  unfolding generate_new_tokens
  generate-IsQuiet p = elim (Option-cases p.ctx.user) [
    | inl u ↦ rw u refl
    | inr (user, u) ↦ rw u (elim (Option-cases (non_empty p.ctx.email)) [
      | inl e ↦ rw e refl
      | inr (email, e) ↦
          rw e (elim (Outcome-cases (issue_with_username sv now user email p.server.db)) [
            | inl (_, h) ↦ rw h refl
            | inr (inl (_, h)) ↦ rw h refl
            | inr (inr (_, h)) ↦ rw h refl
          ])
    ])
  ]

  module _ (k : IsInTransaction) where
    archive-IsQuiet : IsQuiet saved (archive_old_session sv now)
    unfolding archive_old_session
    archive-IsQuiet p = elim (Option-cases (non_empty p.ctx.old_session_uuid)) [
      | inl u ↦ rw u refl
      | inr (uuid, u) ↦ rw u (ap (λ r. (r, p.server.published)) (k.archive-saved uuid p.server.db))
    ]

    -- The step create-new-session, once it has what it needs.
    stored-IsQuiet :
        (account_id : ℕ) (token : Text) (p : World RefreshContext W)
        → outside saved (store_session sv now account_id token p).1 ≡ outside saved p
    stored-IsQuiet account_id token p =
        elim (Outcome-cases (
          create_session sv.session_uuid account_id (sv.hash_token token) (sv.in_seven_days now))) [
            | inl (session, c) ↦
                let same =
                  ap (λ r. (r, p.server.published)) (k.persist-saved session.0 p.server.db) in
                rw c (elim (Outcome-cases (sv.sessions.persist session.0 p.server.db).0) [
                  | inl (_, h) ↦ rw h same
                  | inr (inl (_, h)) ↦ rw h same
                  | inr (inr (_, h)) ↦ rw h same
                ])
            | inr (inl (_, c)) ↦ rw c refl
            | inr (inr (_, c)) ↦ rw c refl
          ]

    create-IsQuiet : IsQuiet saved (create_new_session sv now)
    unfolding create_new_session
    create-IsQuiet p = elim (Option-cases p.ctx.user) [
      | inl u ↦ rw u refl
      | inr (user, u) ↦ rw u (elim (Option-cases (non_empty (refresh_token_of p.ctx.issued))) [
        | inl t ↦ rw t refl
        | inr (token, t) ↦ rw t (elim (Option-cases p.ctx.account_id) [
          | inl i ↦ rw i refl
          | inr (id, i) ↦ rw i (stored-IsQuiet id token _)
        ])
      ])
    ]

    module _ (id correlation_id token : Text) (s : Server W) (states : States) where
      abbrev pub Outcomes : Outcome (Failure AuthError) (Unit {0}) × World RefreshContext W → Type 0
      Outcomes t =
          ((t.0 ≡ ok tt) × Rotates sv tx message now token s t.1)
          ⊎ Untouched tx message now (codes "refresh-session") rows saved isolates
              (start sv tx message now token s) t

      -- The saga refresh-session, under a unit of work that isolates, either throws and leaves the rows
      -- and the event bus as they were, or ends well, and then: the old token has a session that is neither
      -- archived nor expired, is genuine and names a user that exists; that session is archived and one
      -- of the same account, with the hash of the new token, is stored, in one transaction that is
      -- committed; and the refresh is announced with both uuids, unless one is empty.
      pub run_refresh_session-Rotates :
          let t = run_refresh_session sv now tx message id correlation_id token s states in
          Outcomes (t.0, t.1)
      unfolding run_refresh_session
      run_refresh_session-Rotates =
          run-ends_well_or tx message now (codes "refresh-session") rows saved isolates
            (Rotates sv tx message now token s)
            (codes "validate-refresh-token", validate_refresh_token sv now)
            ((codes "archive-old-session", archive_old_session sv now)
              ∷ (codes "generate-new-tokens", generate_new_tokens sv now)
              ∷ (codes "create-new-session", create_new_session sv now)
              ∷ [])
            (codes "publish-events", publish_refresh_events sv now) id correlation_id
            (start sv tx message now token s) states
            (validate-IsQuiet, (archive-IsQuiet, (generate-IsQuiet, (create-IsQuiet, tt))))
            (succeeds sv tx message now token s)
