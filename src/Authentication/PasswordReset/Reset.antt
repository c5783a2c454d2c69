-- ===== src/Authentication/PasswordReset/Reset.antt =====
-- What the saga reset-password does.
use stocka_server.Prelude.{
  ℕ, ◌≡◌, refl, inl, inr, true, Bool-cases, Option, none, some, [], ◌∷◌, ◌++◌, append_assoc, Text,
  codes,
}
use stocka_server.Shared.Outcome.{Outcome, ok, err, throw, Outcome-cases}
use stocka_server.Saga.Retry.{Failure}
use stocka_server.Saga.Engine.{Platform, execute_step}
use stocka_server.Saga.Engine.TwoPhase.{in_sequence, best_effort, two_phase}
use stocka_server.Authentication.Services.{
  AuthError, password_reset_completed, user_password_reset, Server,
}
use stocka_server.Authentication.Password.{create_password}
use stocka_server.Authentication.Sessions.{Applied, restored, World, step_of}
use stocka_server.Authentication.Sagas.{Transaction, saga_platform}
use stocka_server.Authentication.Sagas.After.{
  After, Finished, Succeeded, Finished-task, Finished-last, Succeeded-two_phase,
}
use stocka_server.Authentication.PasswordReset.{
  ResetToken, reset_is_valid, mark_reset_used, ResetServices, ResetContext, validate_reset_token,
  hash_new_password, mark_token_used, archive_user_sessions, publish_reset_events, reset_inside,
  reset_after,
}

module _ {W : Type 0} (sv : ResetServices W) (tx : Transaction W)
    (message : Failure AuthError → Text) (now : ℕ) (token new_password : Text) (s : Server W) where
  abbrev platform : Platform (World ResetContext W) AuthError
  platform = saga_platform tx message now (codes "reset-password")

  -- The database when the transaction has begun.
  abbrev pub begun_db : W
  begun_db = (tx.begin s.db).1

  -- The token is stored and may be used, and the new password is a good one.
  pub record IsAuthorised (t : ResetToken) : Type 0 where
    pub found : sv.reset_tokens.find_by_token_hash (sv.hash_code token) begun_db ≡ ok (some t)
    pub valid : reset_is_valid now t ≡ true
    pub accepted : (password : Text) × (create_password new_password ≡ ok password)

  abbrev pub at : Option (Applied ResetToken) → Option Text → W → World ResetContext W
  at reset_token new_password_hash w = record {
    ctx = record {
      token = token;
      new_password = new_password;
      reset_token = reset_token;
      new_password_hash = new_password_hash;
    };
    server = record { db = w; published = s.published };
  }

  abbrev pub used : ResetToken → Applied ResetToken
  used t = mark_reset_used now (restored t)

  -- The database after the token was marked as used, and after the sessions were archived: those of the
  -- account whose id is that of the credential account.
  abbrev pub marked_db : ResetToken → W
  marked_db t = (sv.reset_tokens.persist (used t).0 begun_db).1

  abbrev pub archived_db : ResetToken → W
  archived_db t = (sv.sessions.archive_all_by_account_id t.credential_account_id (marked_db t)).1

  abbrev Validated : World ResetContext W → Type 0
  Validated p = (t : ResetToken) × IsAuthorised t × (p ≡ at (some (restored t)) none begun_db)

  abbrev Hashed : World ResetContext W → Type 0
  Hashed p =
      (t : ResetToken) × IsAuthorised t
      × (p ≡ at (some (restored t)) (some (sv.hash_password new_password)) begun_db)

  abbrev pub IsSaved : ResetToken → Type 0
  IsSaved t = (r : ResetToken) × ((sv.reset_tokens.persist (used t).0 begun_db).0 ≡ ok r)

  abbrev Marked : World ResetContext W → Type 0
  Marked p =
      (t : ResetToken) × IsAuthorised t
      × IsSaved t
      × (p ≡ at (some (used t)) (some (sv.hash_password new_password)) (marked_db t))

  abbrev Archived : World ResetContext W → Type 0
  Archived p =
      (t : ResetToken) × IsAuthorised t
      × IsSaved t
      × (p ≡ at (some (used t)) (some (sv.hash_password new_password)) (archived_db t))

  valid_row :
      (t : ResetToken)
      → sv.reset_tokens.find_by_token_hash (sv.hash_code token) begun_db ≡ ok (some t)
      → After (λ _. Validated) (validate_reset_token sv now (at none none begun_db))
  unfolding validate_reset_token
  valid_row t f = elim (Bool-cases (reset_is_valid now t)) [
    | inl v ↦ elim (Outcome-cases (create_password new_password)) [
      | inl (a, e) ↦
          rw f (rw v (rw e (t, record { found = f; valid = v; accepted = (a, e) }, refl)))
      | inr (inl (a, e)) ↦ rw f (rw v (rw e tt))
      | inr (inr (a, e)) ↦ rw f (rw v (rw e tt))
    ]
    | inr v ↦ rw f (rw v tt)
  ]

  validated :
      (row : Outcome AuthError (Option ResetToken))
      → sv.reset_tokens.find_by_token_hash (sv.hash_code token) begun_db ≡ row
      → After (λ _. Validated) (validate_reset_token sv now (at none none begun_db))
  unfolding validate_reset_token
  validated (ok none) f = rw f tt
  validated (ok (some t)) f = valid_row t f
  validated (err e) f = rw f tt
  validated (throw e) f = rw f tt

  hashed :
      (p : World ResetContext W) → Validated p → After (λ _. Hashed) (hash_new_password sv now p)
  unfolding hash_new_password
  hashed p (t, a, e) = rw e (t, a, refl)

  marked : (p : World ResetContext W) → Hashed p → After (λ _. Marked) (mark_token_used sv now p)
  unfolding mark_token_used
  marked p (t, a, e) = rw e (elim (Outcome-cases (sv.reset_tokens.persist (used t).0 begun_db).0) [
    | inl (r, h) ↦ rw h (t, a, (r, h), refl)
    | inr (inl (_, h)) ↦ rw h tt
    | inr (inr (_, h)) ↦ rw h tt
  ])

  archived :
      (p : World ResetContext W) → Marked p → After (λ _. Archived) (archive_user_sessions sv now p)
  unfolding archive_user_sessions mark_reset_used
  archived p (t, a, m, e) =
      rw e
        (elim (Outcome-cases
          (sv.sessions.archive_all_by_account_id t.credential_account_id (marked_db t)).0) [
            | inl (_, h) ↦ rw h (t, a, m, refl)
            | inr (inl (_, h)) ↦ rw h tt
            | inr (inr (_, h)) ↦ rw h tt
          ])

  -- The password was reset: the token was marked as used, the sessions of the account with that id were
  -- archived, the transaction was committed, and then the two events were published.
  pub record Resets (q : World ResetContext W) : Type 0 where
    pub reset_token : ResetToken
    pub authorised : IsAuthorised reset_token
    pub saved : IsSaved reset_token
    pub committed : q.server.db ≡ (tx.commit (archived_db reset_token)).1
    pub published :
        q.server.published
        ≡ s.published
          ++ password_reset_completed reset_token.credential_account_id
            ∷ user_password_reset reset_token.credential_account_id (sv.hash_password new_password)
            ∷ []

  published_both :
      (t : ResetToken) (w : W)
      → (best_effort platform
          (reset_after sv now)
          (at (some (used t)) (some (sv.hash_password new_password)) w)).server.published
        ≡ s.published
          ++ password_reset_completed t.credential_account_id
            ∷ user_password_reset t.credential_account_id (sv.hash_password new_password)
            ∷ []
  unfolding best_effort execute_step publish_reset_events mark_reset_used
  published_both t w = append_assoc s.published _ _

  published_db :
      (t : ResetToken) (w : W)
      → (best_effort platform
          (reset_after sv now)
          (at (some (used t)) (some (sv.hash_password new_password)) w)).server.db
        ≡ w
  unfolding best_effort execute_step publish_reset_events mark_reset_used
  published_db t w = refl

  finishes :
      (p : World ResetContext W)
      → Archived p
      → Resets (best_effort platform (reset_after sv now) (platform.uow.commit p).1)
  finishes p (t, a, m, e) = rw e (record {
    reset_token = t;
    authorised = a;
    saved = m;
    committed = published_db t _;
    published = published_both t _;
  })

  finished : Finished Archived (
      in_sequence platform
        (step_of (codes "validate-reset-token") (validate_reset_token sv now) none
          ∷ reset_inside sv now)
        (at none none begun_db))
  finished =
      Finished-task platform Validated Archived (codes "validate-reset-token")
        (validate_reset_token sv now) (reset_inside sv now) (at none none begun_db)
        (validated _ refl)
        λ p v.
          Finished-task platform Hashed Archived (codes "hash-new-password")
            (hash_new_password sv now) _ p (hashed p v)
            λ p h.
              Finished-task platform Marked Archived (codes "mark-token-used")
                (mark_token_used sv now) _ p (marked p h)
                λ p m.
                  Finished-last platform Archived (codes "archive-user-sessions")
                    (archive_user_sessions sv now) p (archived p m)

  pub succeeds : Succeeded Resets (
      two_phase platform
        (step_of (codes "validate-reset-token") (validate_reset_token sv now) none
          ∷ reset_inside sv now)
        (reset_after sv now)
        (at none none s.db))
  succeeds =
      Succeeded-two_phase platform Archived Resets
        (step_of (codes "validate-reset-token") (validate_reset_token sv now) none
          ∷ reset_inside sv now)
        (reset_after sv now) (at none none s.db) finished finishes
