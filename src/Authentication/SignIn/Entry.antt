-- ===== src/Authentication/SignIn/Entry.antt =====
-- What the saga sign-in does.
use stocka_server.Prelude.{
  ℕ, ◌≡◌, refl, ap, inl, inr, Option-cases, Option, none, some, [], ◌∷◌, ◌++◌, append_assoc, Text,
  codes,
}
use stocka_server.Shared.Outcome.{ok, Outcome-cases}
use stocka_server.Saga.Retry.{Failure}
use stocka_server.Saga.Engine.{Platform, execute_step}
use stocka_server.Saga.Engine.TwoPhase.{in_sequence, best_effort, two_phase}
use stocka_server.Users.Credential.{Credential}
use stocka_server.Users.Facade.{User}
use stocka_server.Authentication.Services.{AuthError, user_signed_in, Server}
use stocka_server.Authentication.Sessions.{
  Session, Applied, restored, create_session, World, step_of,
}
use stocka_server.Authentication.Tokens.{Issued, issue_tokens, non_empty-cases, truthy_id}
use stocka_server.Authentication.Sagas.{Transaction, saga_platform}
use stocka_server.Authentication.Sagas.After.{
  After, Finished, Succeeded, Finished-task, Finished-last, Succeeded-two_phase,
}
use stocka_server.Authentication.SignIn.{
  SignInContext, SignInServices, Entrant, check_credentials, validate_credentials, generate_tokens,
  create_sign_in_session, publish_sign_in_events, sign_in_inside, sign_in_after,
}
use stocka_server.Authentication.SignIn.Admission.{IsAdmitted, check_credentials-IsAdmitted}

module _ {W : Type 0} (sv : SignInServices W) (tx : Transaction W)
    (message : Failure AuthError → Text) (now : ℕ) (identifier password : Text) (s : Server W) where
  abbrev platform : Platform (World SignInContext W) AuthError
  platform = saga_platform tx message now (codes "sign-in")

  -- The database when the transaction has begun.
  abbrev pub begun_db : W
  begun_db = (tx.begin s.db).1

  abbrev pub context :
      Option User
      → Option Credential
      → Option Text
      → Option Issued
      → Option (Applied Session)
      → SignInContext
  context user credential username issued session = record {
    email_or_username = identifier;
    password = password;
    user = user;
    credential = credential;
    username = username;
    issued = issued;
    session = session;
  }

  abbrev pub start : World SignInContext W
  start = record { ctx = context none none none none none; server = s }

  abbrev pub at : Entrant → Option Issued → Option (Applied Session) → W → World SignInContext W
  at e issued session w = record {
    ctx = context (some e.user) (some e.credential) (some e.username) issued session;
    server = record { db = w; published = s.published };
  }

  -- The tokens are for the one who was admitted.
  pub record IsIssued (e : Entrant) (i : Issued) : Type 0 where
    pub admitted : IsAdmitted sv identifier password begun_db e
    pub signed :
        issue_tokens sv.facades sv.jwt now sv.jti e.user.uuid e.credential.email begun_db ≡ ok i

  -- The session is one of the account of the credential, for the token that was issued, and is stored
  -- with the credential account.
  pub record IsOpened (e : Entrant) (i : Issued) (w : W) (persisted : Session) : Type 0 where
    pub issued : IsIssued e i
    pub id : ℕ
    pub has_id : truthy_id e.credential.id ≡ some id
    pub session : Applied Session
    pub created :
        create_session sv.session_uuid e.credential.account_id
          (sv.hash_token i.refresh_token)
          (sv.in_seven_days now)
        ≡ ok session
    pub stored : sv.sessions.persist_with_credential session.0 id begun_db ≡ (ok persisted, w)

  abbrev Validated : World SignInContext W → Type 0
  Validated p =
      (e : Entrant) × IsAdmitted sv identifier password begun_db e × (p ≡ at e none none begun_db)

  abbrev Generated : World SignInContext W → Type 0
  Generated p = (e : Entrant) × (i : Issued) × IsIssued e i × (p ≡ at e (some i) none begun_db)

  abbrev Opened : World SignInContext W → Type 0
  Opened p =
      (e : Entrant) × (i : Issued) × (w : W) × (persisted : Session) × IsOpened e i w persisted
      × (p ≡ at e (some i) (some (restored persisted)) w)

  validated : After (λ _. Validated) (validate_credentials sv (platform.uow.begin start).1)
  unfolding validate_credentials
  validated = elim (Outcome-cases (check_credentials sv identifier password begun_db)) [
    | inl (e, h) ↦ rw h (e, check_credentials-IsAdmitted sv identifier password begun_db e h, refl)
    | inr (inl (_, h)) ↦ rw h tt
    | inr (inr (_, h)) ↦ rw h tt
  ]

  generated :
      (p : World SignInContext W) → Validated p → After (λ _. Generated) (generate_tokens sv now p)
  unfolding generate_tokens
  generated p (e, a, at_e) =
      rw at_e
        (elim (Outcome-cases
          (issue_tokens sv.facades sv.jwt now sv.jti e.user.uuid e.credential.email begun_db)) [
            | inl (i, h) ↦ rw h (e, i, record { admitted = a; signed = h }, refl)
            | inr (inl (_, h)) ↦ rw h tt
            | inr (inr (_, h)) ↦ rw h tt
          ])

  opened :
      (p : World SignInContext W)
      → Generated p
      → After (λ _. Opened) (create_sign_in_session sv now p)
  unfolding create_sign_in_session
  opened p (e, i, g, at_i) = rw at_i (elim (non_empty-cases i.refresh_token) [
    | inl n ↦ rw n (elim (Option-cases (truthy_id e.credential.id)) [
      | inl h ↦ rw h tt
      | inr (id, h) ↦
          rw h
            (elim (Outcome-cases (
              create_session sv.session_uuid e.credential.account_id (sv.hash_token i.refresh_token)
                (sv.in_seven_days now))) [
                  | inl (session, c) ↦
                      rw c
                        (elim (Outcome-cases
                          (sv.sessions.persist_with_credential session.0 id begun_db).0) [
                            | inl (persisted, k) ↦ rw k (
                              e,
                              i,
                              (sv.sessions.persist_with_credential session.0 id begun_db).1,
                              persisted,
                              record {
                                issued = g;
                                id = id;
                                has_id = h;
                                session = session;
                                created = c;
                                stored =
                                    ap
                                      (λ r. (
                                        r,
                                        (sv.sessions.persist_with_credential session.0 id
                                            begun_db).1,
                                      ))
                                      k;
                              },
                              refl,
                            )
                            | inr (inl (_, k)) ↦ rw k tt
                            | inr (inr (_, k)) ↦ rw k tt
                          ])
                  | inr (inl (_, c)) ↦ rw c tt
                  | inr (inr (_, c)) ↦ rw c tt
                ])
    ])
    | inr n ↦ rw n tt
  ])

  -- The sign-in went well: the one who was admitted has a session, stored in a transaction that was
  -- committed, and the sign-in is announced.
  pub record SignsIn (q : World SignInContext W) : Type 0 where
    pub entrant : Entrant
    pub issued : Issued
    pub db : W
    pub persisted : Session
    pub opened : IsOpened entrant issued db persisted
    pub answer : q.ctx.issued ≡ some issued
    pub committed : q.server.db ≡ (tx.commit db).1
    pub published : q.server.published ≡ s.published ++ user_signed_in entrant.user.uuid ∷ []

  published_db :
      (e : Entrant) (i : Issued) (persisted : Session) (w : W)
      → (best_effort platform
          (sign_in_after sv)
          (at e (some i) (some (restored persisted)) w)).server
        ≡ record { db = w; published = s.published ++ user_signed_in e.user.uuid ∷ [] }
  unfolding best_effort execute_step publish_sign_in_events
  published_db e i persisted w =
      ap (λ l. record { db = w; published = l }) (append_assoc s.published [] _)

  -- The steps after the commit leave the tokens in the context.
  answered :
      (e : Entrant) (i : Issued) (persisted : Session) (w : W)
      → (best_effort platform
          (sign_in_after sv)
          (at e (some i) (some (restored persisted)) w)).ctx.issued
        ≡ some i
  unfolding best_effort execute_step publish_sign_in_events
  answered e i persisted w = refl

  finishes :
      (p : World SignInContext W)
      → Opened p
      → SignsIn (best_effort platform (sign_in_after sv) (platform.uow.commit p).1)
  finishes p (e, i, w, persisted, o, at_o) = rw at_o (record {
    entrant = e;
    issued = i;
    db = w;
    persisted = persisted;
    opened = o;
    answer = answered e i persisted (tx.commit w).1;
    committed = ap (λ v. v.db) (published_db e i persisted (tx.commit w).1);
    published = ap (λ v. v.published) (published_db e i persisted (tx.commit w).1);
  })

  finished : Finished Opened (
      in_sequence platform
        (step_of (codes "validate-credentials") (validate_credentials sv) none
          ∷ sign_in_inside sv now)
        (platform.uow.begin start).1)
  finished =
      Finished-task platform Validated Opened (codes "validate-credentials")
        (validate_credentials sv) (sign_in_inside sv now) _ validated
        λ p v.
          Finished-task platform Generated Opened (codes "generate-tokens") (generate_tokens sv now)
            _ p (generated p v)
            λ p g.
              Finished-last platform Opened (codes "create-session") (create_sign_in_session sv now)
                p (opened p g)

  pub succeeds : Succeeded SignsIn (
      two_phase platform
        (step_of (codes "validate-credentials") (validate_credentials sv) none
          ∷ sign_in_inside sv now)
        (sign_in_after sv)
        start)
  succeeds =
      Succeeded-two_phase platform Opened SignsIn
        (step_of (codes "validate-credentials") (validate_credentials sv) none
          ∷ sign_in_inside sv now)
        (sign_in_after sv) start finished finishes
