-- ===== src/Authentication/Refresh/Rotation.antt =====
-- What the saga refresh-session does.
use stocka_server.Prelude.{
  ℕ, ◌≡◌, refl, ap, inl, inr, Option-cases, Option, none, some, Text, codes,
}
use stocka_server.Shared.Outcome.{ok, Outcome-cases}
use stocka_server.Saga.Retry.{Failure}
use stocka_server.Saga.Engine.{Platform}
use stocka_server.Authentication.Services.{AuthError, Server}
use stocka_server.Authentication.Sessions.{Session, Applied, create_session, World}
use stocka_server.Authentication.Tokens.{Issued, non_empty, non_empty-cases}
use stocka_server.Authentication.Sagas.{Transaction, saga_platform}
use stocka_server.Authentication.Sagas.After.{After}
use stocka_server.Authentication.Refresh.{
  RefreshContext, RefreshServices, Grant, check_refresh_token, issue_with_username,
  validate_refresh_token, archive_old_session, generate_new_tokens, create_new_session,
  refresh_context,
}
use stocka_server.Authentication.Refresh.Grants.{IsGranted, check_refresh_token-IsGranted}

module _ {W : Type 0} (sv : RefreshServices W) (tx : Transaction W)
    (message : Failure AuthError → Text) (now : ℕ) (token : Text) (s : Server W) where
  abbrev platform : Platform (World RefreshContext W) AuthError
  platform = saga_platform tx message now (codes "refresh-session")

  -- The database when the transaction has begun.
  abbrev pub begun_db : W
  begun_db = (tx.begin s.db).1

  abbrev pub start : World RefreshContext W
  start = record { ctx = refresh_context token; server = s }

  abbrev pub at :
      Grant → Option Issued → Option (Option Text) → Option Text → W → World RefreshContext W
  at g issued username new_session_uuid w = record {
    ctx = record {
      refresh_token = token;
      old_session_uuid = some g.session.uuid;
      user = some g.user;
      email = g.email;
      account_id = some g.session.account_id;
      issued = issued;
      username = username;
      new_session_uuid = new_session_uuid;
    };
    server = record { db = w; published = s.published };
  }

  -- The session of the old token is archived, and `w` is the database then.
  pub record IsArchived (g : Grant) (w : W) : Type 0 where
    pub granted : IsGranted sv now token begun_db g
    pub archived : sv.sessions.archive g.session.uuid begun_db ≡ (ok tt, w)

  -- The tokens are for the user whom the old one names.
  pub record IsIssued (g : Grant) (w : W) (i : Issued × Option Text) : Type 0 where
    pub done : IsArchived g w
    pub email : Text
    pub has_email : non_empty g.email ≡ some email
    pub signed : issue_with_username sv now g.user email w ≡ ok i

  -- A session of the same account, for the new token, is stored, and `w'` is the database then.
  pub record IsReplaced (g : Grant) (w w' : W) (i : Issued × Option Text) (persisted : Session)
      : Type 0 where
    pub issued : IsIssued g w i
    pub session : Applied Session
    pub created :
        create_session sv.session_uuid g.session.account_id
          (sv.hash_token i.0.refresh_token)
          (sv.in_seven_days now)
        ≡ ok session
    pub stored : sv.sessions.persist session.0 w ≡ (ok persisted, w')

  abbrev pub Validated : World RefreshContext W → Type 0
  Validated p = (g : Grant) × IsGranted sv now token begun_db g × (p ≡ at g none none none begun_db)

  abbrev pub Archived : World RefreshContext W → Type 0
  Archived p = (g : Grant) × (w : W) × IsArchived g w × (p ≡ at g none none none w)

  abbrev pub Generated : World RefreshContext W → Type 0
  Generated p =
      (g : Grant) × (w : W) × (i : Issued × Option Text) × IsIssued g w i
      × (p ≡ at g (some i.0) (some i.1) none w)

  abbrev pub Replaced : World RefreshContext W → Type 0
  Replaced p =
      (g : Grant) × (w : W) × (w' : W) × (i : Issued × Option Text) × (persisted : Session)
      × IsReplaced g w w' i persisted
      × (p ≡ at g (some i.0) (some i.1) (some persisted.uuid) w')

  pub validated :
      After (λ _. Validated) (validate_refresh_token sv now (platform.uow.begin start).1)
  unfolding validate_refresh_token
  validated = elim (Outcome-cases (check_refresh_token sv now token begun_db)) [
    | inl (g, h) ↦ rw h (g, check_refresh_token-IsGranted sv now token begun_db g h, refl)
    | inr (inl (_, h)) ↦ rw h tt
    | inr (inr (_, h)) ↦ rw h tt
  ]

  pub archived :
      (p : World RefreshContext W)
      → Validated p
      → After (λ _. Archived) (archive_old_session sv now p)
  unfolding archive_old_session
  archived p (g, granted, at_g) = rw at_g (elim (non_empty-cases g.session.uuid) [
    | inl n ↦ rw n (elim (Outcome-cases (sv.sessions.archive g.session.uuid begun_db).0) [
      | inl (_, h) ↦ rw h (
        g,
        (sv.sessions.archive g.session.uuid begun_db).1,
        record {
          granted = granted;
          archived = ap (λ r. (r, (sv.sessions.archive g.session.uuid begun_db).1)) h;
        },
        refl,
      )
      | inr (inl (_, h)) ↦ rw h tt
      | inr (inr (_, h)) ↦ rw h tt
    ])
    | inr n ↦ rw n tt
  ])

  pub generated :
      (p : World RefreshContext W)
      → Archived p
      → After (λ _. Generated) (generate_new_tokens sv now p)
  unfolding generate_new_tokens
  generated p (g, w, a, at_g) = rw at_g (elim (Option-cases (non_empty g.email)) [
    | inl n ↦ rw n tt
    | inr (email, n) ↦ rw n (elim (Outcome-cases (issue_with_username sv now g.user email w)) [
      | inl (i, h) ↦
          rw h (g, w, i, record { done = a; email = email; has_email = n; signed = h }, refl)
      | inr (inl (_, h)) ↦ rw h tt
      | inr (inr (_, h)) ↦ rw h tt
    ])
  ])

  pub replaced :
      (p : World RefreshContext W)
      → Generated p
      → After (λ _. Replaced) (create_new_session sv now p)
  unfolding create_new_session
  replaced p (g, w, i, issued, at_i) = rw at_i (elim (non_empty-cases i.0.refresh_token) [
    | inl n ↦
        rw n
          (elim (Outcome-cases (
            create_session sv.session_uuid g.session.account_id (sv.hash_token i.0.refresh_token)
              (sv.in_seven_days now))) [
                | inl (session, c) ↦
                    rw c (elim (Outcome-cases (sv.sessions.persist session.0 w).0) [
                      | inl (persisted, k) ↦ rw k (
                        g,
                        w,
                        (sv.sessions.persist session.0 w).1,
                        i,
                        persisted,
                        record {
                          issued = issued;
                          session = session;
                          created = c;
                          stored = ap (λ r. (r, (sv.sessions.persist session.0 w).1)) k;
                        },
                        refl,
                      )
                      | inr (inl (_, k)) ↦ rw k tt
                      | inr (inr (_, k)) ↦ rw k tt
                    ])
                | inr (inl (_, c)) ↦ rw c tt
                | inr (inr (_, c)) ↦ rw c tt
              ])
    | inr n ↦ rw n tt
  ])
