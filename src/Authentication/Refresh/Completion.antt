-- ===== src/Authentication/Refresh/Completion.antt =====
-- What the saga refresh-session has done when it ends well.
use stocka_server.Prelude.{
  ℕ, ◌≡◌, refl, sym, ap, append-nil, inl, inr, Option-cases, Option, none, some, List, [], ◌∷◌,
  ◌++◌, Text, codes,
}
use stocka_server.Saga.Retry.{Failure}
use stocka_server.Saga.Engine.{Platform, execute_step}
use stocka_server.Saga.Engine.TwoPhase.{in_sequence, best_effort, two_phase}
use stocka_server.Authentication.Services.{AuthError, AuthEvent, session_refreshed, Server}
use stocka_server.Authentication.Sessions.{Session, World, step_of}
use stocka_server.Authentication.Tokens.{Issued, non_empty}
use stocka_server.Authentication.Sagas.{Transaction, saga_platform}
use stocka_server.Authentication.Sagas.After.{
  Finished, Succeeded, Finished-task, Finished-last, Succeeded-two_phase,
}
use stocka_server.Authentication.Refresh.{
  RefreshContext, RefreshServices, Grant, validate_refresh_token, archive_old_session,
  generate_new_tokens, create_new_session, publish_refresh_events, refresh_inside, refresh_after,
}
use stocka_server.Authentication.Refresh.Rotation.{
  at, start, Validated, Archived, Generated, Replaced, validated, archived, generated, replaced,
  IsReplaced,
}

module _ {W : Type 0} (sv : RefreshServices W) (tx : Transaction W)
    (message : Failure AuthError → Text) (now : ℕ) (token : Text) (s : Server W) where
  abbrev platform : Platform (World RefreshContext W) AuthError
  platform = saga_platform tx message now (codes "refresh-session")

  -- The event of the two uuids; none of an empty one.
  abbrev pub announced : Option Text → Option Text → List AuthEvent
  announced none new = []
  announced (some old) none = []
  announced (some old) (some new) = session_refreshed old new ∷ []

  -- The session was refreshed: the one of the old token is archived, one of the same account with the
  -- new token is stored, both in a transaction that was committed, and that is announced.
  pub record Rotates (q : World RefreshContext W) : Type 0 where
    pub grant : Grant
    pub archived_db : W
    pub stored_db : W
    pub tokens : Issued × Option Text
    pub persisted : Session
    pub replaced : IsReplaced sv tx message now token s grant archived_db stored_db tokens persisted
    pub committed : q.server.db ≡ (tx.commit stored_db).1
    pub published :
        q.server.published
        ≡ s.published
          ++ announced (non_empty (some grant.session.uuid)) (non_empty (some persisted.uuid))

  published_db :
      (g : Grant) (i : Issued × Option Text) (new : Text) (w : W)
      → (best_effort platform
          (refresh_after sv now)
          (at sv tx message now token s g (some i.0) (some i.1) (some new) w)).server
        ≡ record {
          db = w;
          published =
              s.published ++ announced (non_empty (some g.session.uuid)) (non_empty (some new));
        }
  unfolding best_effort execute_step publish_refresh_events
  published_db g i new w = elim (Option-cases (non_empty (some g.session.uuid))) [
    | inl n ↦ rw n (ap (λ l. record { db = w; published = l }) (sym (append-nil s.published)))
    | inr (old, n) ↦ rw n (elim (Option-cases (non_empty (some new))) [
      | inl m ↦ rw m (ap (λ l. record { db = w; published = l }) (sym (append-nil s.published)))
      | inr (new, m) ↦ rw m refl
    ])
  ]

  finishes :
      (p : World RefreshContext W)
      → Replaced sv tx message now token s p
      → Rotates (best_effort platform (refresh_after sv now) (platform.uow.commit p).1)
  finishes p (g, w, w', i, persisted, r, at_r) = rw at_r (record {
    grant = g;
    archived_db = w;
    stored_db = w';
    tokens = i;
    persisted = persisted;
    replaced = r;
    committed = ap (λ v. v.db) (published_db g i persisted.uuid (tx.commit w').1);
    published = ap (λ v. v.published) (published_db g i persisted.uuid (tx.commit w').1);
  })

  finished : Finished (Replaced sv tx message now token s) (
      in_sequence platform
        (step_of (codes "validate-refresh-token") (validate_refresh_token sv now) none
          ∷ refresh_inside sv now)
        (platform.uow.begin (start sv tx message now token s)).1)
  finished =
      Finished-task platform (Validated sv tx message now token s)
        (Replaced sv tx message now token s) (codes "validate-refresh-token")
        (validate_refresh_token sv now) (refresh_inside sv now) _
        (validated sv tx message now token s)
        λ p v.
          Finished-task platform (Archived sv tx message now token s)
            (Replaced sv tx message now token s) (codes "archive-old-session")
            (archive_old_session sv now) _ p (archived sv tx message now token s p v)
            λ p a.
              Finished-task platform (Generated sv tx message now token s)
                (Replaced sv tx message now token s) (codes "generate-new-tokens")
                (generate_new_tokens sv now) _ p (generated sv tx message now token s p a)
                λ p g.
                  Finished-last platform (Replaced sv tx message now token s)
                    (codes "create-new-session") (create_new_session sv now) p
                    (replaced sv tx message now token s p g)

  pub succeeds : Succeeded Rotates (
      two_phase platform
        (step_of (codes "validate-refresh-token") (validate_refresh_token sv now) none
          ∷ refresh_inside sv now)
        (refresh_after sv now)
        (start sv tx message now token s))
  succeeds =
      Succeeded-two_phase platform (Replaced sv tx message now token s) Rotates
        (step_of (codes "validate-refresh-token") (validate_refresh_token sv now) none
          ∷ refresh_inside sv now)
        (refresh_after sv now) (start sv tx message now token s) finished finishes
