-- ===== src/Authentication/SignIn/AllOrNothing.antt =====
-- The saga sign-in as a whole, on the engine of the sagas.
use stocka_server.Prelude.{ℕ, ◌≡◌, refl, ap, ◌⊎◌, inl, inr, [], ◌∷◌, Option-cases, Text, codes}
use stocka_server.Shared.Outcome.{Outcome, ok, Outcome-cases}
use stocka_server.Saga.Retry.{Failure}
use stocka_server.Saga.Process.{States}
use stocka_server.Authentication.Services.{AuthError, Server}
use stocka_server.Authentication.Sessions.{Session, create_session, World}
use stocka_server.Authentication.Sagas.{Transaction, Isolates}
use stocka_server.Authentication.Sagas.Atomic.{Untouched}
use stocka_server.Authentication.Sagas.Whole.{run-ends_well_or}
use stocka_server.Authentication.Sagas.Quiet.{outside, IsQuiet}
use stocka_server.Authentication.Tokens.{issue_tokens, non_empty, refresh_token_of, truthy_id}
use stocka_server.Authentication.SignIn.{
  SignInContext, SignInServices, check_credentials, store_session, validate_credentials,
  generate_tokens, create_sign_in_session, publish_sign_in_events, run_sign_in,
}
use stocka_server.Authentication.SignIn.Entry.{start, SignsIn, succeeds}

module _ {W R : Type 0} (sv : SignInServices W) (tx : Transaction W)
    (message : Failure AuthError → Text) (now : ℕ) (rows saved : W → R)
    (isolates : Isolates tx rows saved)
    (persist-saved : (session : Session) (id : ℕ) (w : W)
      → saved (sv.sessions.persist_with_credential session id w).1 ≡ saved w) where
  validate-IsQuiet : IsQuiet saved (validate_credentials sv)
  unfolding validate_credentials
  validate-IsQuiet p =
      elim (Outcome-cases
        (check_credentials sv p.ctx.email_or_username p.ctx.password p.server.db)) [
          | inl (_, h) ↦ rw h refl
          | inr (inl (_, h)) ↦ rw h refl
          | inr (inr (_, h)) ↦ rw h refl
        ]

  generate-IsQuiet : IsQuiet saved (generate_tokens sv now)
  unfolding generate_tokens
  generate-IsQuiet p = elim (Option-cases p.ctx.user) [
    | inl u ↦ rw u refl
    | inr (user, u) ↦ rw u (elim (Option-cases p.ctx.credential) [
      | inl c ↦ rw c refl
      | inr (credential, c) ↦
          rw c
            (elim (Outcome-cases
              (issue_tokens sv.facades sv.jwt now sv.jti user.uuid credential.email p.server.db)) [
                | inl (_, h) ↦ rw h refl
                | inr (inl (_, h)) ↦ rw h refl
                | inr (inr (_, h)) ↦ rw h refl
              ])
    ])
  ]

  -- The step create-session, once it has what it needs.
  stored-IsQuiet :
      (account_id id : ℕ) (token : Text) (p : World SignInContext W)
      → outside saved (store_session sv now account_id id token p).1 ≡ outside saved p
  stored-IsQuiet account_id id token p =
      elim (Outcome-cases
        (create_session sv.session_uuid account_id (sv.hash_token token) (sv.in_seven_days now))) [
          | inl (session, c) ↦
              let same =
                ap (λ r. (r, p.server.published)) (persist-saved session.0 id p.server.db) in
              rw c
                (elim (Outcome-cases
                  (sv.sessions.persist_with_credential session.0 id p.server.db).0) [
                    | inl (_, h) ↦ rw h same
                    | inr (inl (_, h)) ↦ rw h same
                    | inr (inr (_, h)) ↦ rw h same
                  ])
          | inr (inl (_, c)) ↦ rw c refl
          | inr (inr (_, c)) ↦ rw c refl
        ]

  create-IsQuiet : IsQuiet saved (create_sign_in_session sv now)
  unfolding create_sign_in_session
  create-IsQuiet p = elim (Option-cases p.ctx.user) [
    | inl u ↦ rw u refl
    | inr (user, u) ↦ rw u (elim (Option-cases (non_empty (refresh_token_of p.ctx.issued))) [
      | inl t ↦ rw t refl
      | inr (token, t) ↦ rw t (elim (Option-cases p.ctx.credential) [
        | inl c ↦ rw c refl
        | inr (credential, c) ↦ rw c (elim (Option-cases (truthy_id credential.id)) [
          | inl i ↦ rw i refl
          | inr (id, i) ↦ rw i (stored-IsQuiet credential.account_id id token _)
        ])
      ])
    ])
  ]

  module _ (id correlation_id identifier password : Text) (s : Server W) (states : States) where
    abbrev pub Outcomes : Outcome (Failure AuthError) (Unit {0}) × World SignInContext W → Type 0
    Outcomes t =
        ((t.0 ≡ ok tt) × SignsIn sv tx message now identifier password s t.1)
        ⊎ Untouched tx message now (codes "sign-in") rows saved isolates
            (start sv tx message now identifier password s) t

    pub run_sign_in-SignsIn :
        let t = run_sign_in sv tx message now id correlation_id identifier password s states in
        Outcomes (t.0, t.1)
    unfolding run_sign_in
    run_sign_in-SignsIn =
        run-ends_well_or tx message now (codes "sign-in") rows saved isolates
          (SignsIn sv tx message now identifier password s)
          (codes "validate-credentials", validate_credentials sv)
          ((codes "generate-tokens", generate_tokens sv now)
            ∷ (codes "create-session", create_sign_in_session sv now)
            ∷ [])
          (codes "publish-events", publish_sign_in_events sv) id correlation_id
          (start sv tx message now identifier password s) states
          (validate-IsQuiet, (generate-IsQuiet, (create-IsQuiet, tt)))
          (succeeds sv tx message now identifier password s)
