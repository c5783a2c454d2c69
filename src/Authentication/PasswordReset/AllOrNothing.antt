-- ===== src/Authentication/PasswordReset/AllOrNothing.antt =====
-- The saga reset-password as a whole, on the engine of the sagas.
use stocka_server.Prelude.{
  ◌≡◌, refl, ◌⊎◌, inl, inr, Bool-cases, Option, none, some, [], ◌∷◌, Text, codes, ℕ,
}
use stocka_server.Shared.Outcome.{Outcome, ok, err, throw, Outcome-cases, Act, ◌>>=◌, pure}
use stocka_server.Saga.Retry.{Failure}
use stocka_server.Saga.Process.{States}
use stocka_server.Authentication.Services.{AuthError, Server}
use stocka_server.Authentication.Password.{create_password}
use stocka_server.Authentication.Sessions.{Applied, World, required, assign, on_server}
use stocka_server.Shared.Rules.{Leaves-bind}
use stocka_server.Shared.Bus.{store}
use stocka_server.Authentication.Sagas.{Transaction, Isolates}
use stocka_server.Authentication.Sagas.Atomic.{Untouched}
use stocka_server.Authentication.Sagas.Whole.{run-ends_well_or}
use stocka_server.Authentication.Sagas.Quiet.{outside, IsQuiet, required-IsQuiet, store-IsQuiet}
use stocka_server.Authentication.PasswordReset.{
  ResetToken, reset_is_valid, mark_reset_used, ResetServices, ResetContext, validate_reset_token,
  hash_new_password, mark_token_used, archive_user_sessions, publish_reset_events,
  run_reset_password,
}
use stocka_server.Authentication.PasswordReset.Reset.{at, Resets, succeeds}

module _ {W R : Type 0} (sv : ResetServices W) (tx : Transaction W)
    (message : Failure AuthError → Text) (now : ℕ) (rows saved : W → R)
    (isolates : Isolates tx rows saved) where
  -- The repositories write through the transaction: they leave what a rollback would bring back.
  pub record IsInTransaction : Type 0 where
    pub persist-saved : (t : ResetToken) (w : W) → saved (sv.reset_tokens.persist t w).1 ≡ saved w
    pub archive-saved :
        (id : ℕ) (w : W) → saved (sv.sessions.archive_all_by_account_id id w).1 ≡ saved w

  module _ (p : World ResetContext W) where
    validate_row :
        (r : Outcome AuthError (Option ResetToken))
        → sv.reset_tokens.find_by_token_hash (sv.hash_code p.ctx.token) p.server.db ≡ r
        → outside saved (validate_reset_token sv now p).1 ≡ outside saved p
    unfolding validate_reset_token
    validate_row (ok none) f = rw f refl
    validate_row (ok (some t)) f = elim (Bool-cases (reset_is_valid now t)) [
      | inl v ↦ elim (Outcome-cases (create_password p.ctx.new_password)) [
        | inl (a, e) ↦ rw f (rw v (rw e refl))
        | inr (inl (a, e)) ↦ rw f (rw v (rw e refl))
        | inr (inr (a, e)) ↦ rw f (rw v (rw e refl))
      ]
      | inr v ↦ rw f (rw v refl)
    ]
    validate_row (err e) f = rw f refl
    validate_row (throw e) f = rw f refl

  validate-IsQuiet : IsQuiet saved (validate_reset_token sv now)
  validate-IsQuiet p = validate_row p _ refl

  hash-IsQuiet : IsQuiet saved (hash_new_password sv now)
  unfolding hash_new_password
  hash-IsQuiet p = refl

  module _ (k : IsInTransaction) where
    -- The step mark-token-used, once it has the token.
    abbrev save_used :
        Applied ResetToken → Act (World ResetContext W) (Failure AuthError) (Unit {0})
    save_used used = on_server (store (sv.reset_tokens.persist used.0)) >>= λ _saved. pure tt

    save_used-IsQuiet : (used : Applied ResetToken) → IsQuiet saved (save_used used)
    save_used-IsQuiet used =
        Leaves-bind (outside saved) (on_server (store (sv.reset_tokens.persist used.0)))
          (λ _saved. pure tt)
          (store-IsQuiet saved (sv.reset_tokens.persist used.0) (k.persist-saved used.0))
          λ _ p. refl

    mark-IsQuiet : IsQuiet saved (mark_token_used sv now)
    unfolding mark_token_used
    mark-IsQuiet =
        Leaves-bind {B = Unit {0}} (outside saved) (required (λ c. c.reset_token)) _
          (required-IsQuiet saved (λ c. c.reset_token))
          λ t.
            Leaves-bind (outside saved)
              (assign (λ c. record c { reset_token = some (mark_reset_used now t) }))
              (λ _. save_used (mark_reset_used now t)) (λ p. refl)
              λ _. save_used-IsQuiet (mark_reset_used now t)

    archive-IsQuiet : IsQuiet saved (archive_user_sessions sv now)
    unfolding archive_user_sessions
    archive-IsQuiet =
        Leaves-bind (outside saved) (required (λ c. c.reset_token)) _
          (required-IsQuiet saved (λ c. c.reset_token))
          λ t.
            store-IsQuiet saved (sv.sessions.archive_all_by_account_id t.0.credential_account_id)
              (k.archive-saved t.0.credential_account_id)

    module _ (id correlation_id token new_password : Text) (s : Server W) (states : States) where
      abbrev start : World ResetContext W
      start = at sv tx message now token new_password s none none s.db

      abbrev pub Outcomes : Outcome (Failure AuthError) (Unit {0}) × World ResetContext W → Type 0
      Outcomes t =
          ((t.0 ≡ ok tt) × Resets sv tx message now token new_password s t.1)
          ⊎ Untouched tx message now (codes "reset-password") rows saved isolates start t

      -- The saga reset-password, under a unit of work that isolates, either throws and leaves the rows
      -- and the event bus as they were, or ends well, and then: the token was stored and could be used, the
      -- new password is a good one, the token is saved as used and the sessions of the account that has
      -- the id of the credential account are archived, in one transaction that is committed, and the
      -- two events are published.
      pub run_reset_password-Resets :
          let t =
            run_reset_password sv now tx message id correlation_id token new_password s states in
          Outcomes (t.0, t.1)
      unfolding run_reset_password
      run_reset_password-Resets =
          run-ends_well_or tx message now (codes "reset-password") rows saved isolates
            (Resets sv tx message now token new_password s)
            (codes "validate-reset-token", validate_reset_token sv now)
            ((codes "hash-new-password", hash_new_password sv now)
              ∷ (codes "mark-token-used", mark_token_used sv now)
              ∷ (codes "archive-user-sessions", archive_user_sessions sv now)
              ∷ [])
            (codes "publish-events", publish_reset_events sv now) id correlation_id start states
            (validate-IsQuiet, (hash-IsQuiet, (mark-IsQuiet, (archive-IsQuiet, tt))))
            (succeeds sv tx message now token new_password s)
