-- ===== src/Authentication/Verification/Verify.antt =====
-- What verify-email does, and what the user context makes of its event.
use stocka_server.Prelude.{
  ℕ, ◌≡◌, refl, ◌⊎◌, inl, inr, true, false, Bool-cases, Option, none, some, Text, text_eq,
  eq_of_text_eq,
}
use stocka_server.Shared.Outcome.{Outcome, ok, err, throw, is_ok, resume}
use stocka_server.Users.Credential.{UserError, Credential, requires_email_verification}
use stocka_server.Users.Facade.{User, Owned, find_user_by_email}
use stocka_server.Authentication.Services.{AuthError, Server, from_users}
use stocka_server.Authentication.VerificationToken.{Token}
use stocka_server.Authentication.Verification.{
  VerificationServices, use_token, verify_with, verify_for, verify_owned, verify_email_code,
}

module _ {W : Type 0} (sv : VerificationServices W) (email code : Text) (lang : Option Text)
    (now : ℕ) where
  -- The code is that of the active token of an account that is not yet verified; the token is
  -- marked as used.
  pub record Verifies (s : Server W) (result : Outcome AuthError (Unit {0}) × Server W)
      : Type 0 where
    pub user : User
    pub credential : Credential
    pub credential_id : ℕ
    pub token : Token
    pub owner : find_user_by_email sv.users email s.db ≡ ok (some (user, credential))
    pub pending : requires_email_verification credential ≡ true
    pub stored : credential.id ≡ some credential_id
    pub active :
        sv.tokens.find_active_by_credential_account_id credential_id now s.db ≡ ok (some token)
    pub matches : token.code_hash ≡ sv.hash_code (sv.to_upper code)
    pub run : result ≡ use_token sv email code lang now user token s

  -- It is refused, and nothing happens.
  abbrev pub Refused : Server W → Outcome AuthError (Unit {0}) × Server W → Type 0
  Refused s result = (is_ok result.0 ≡ false) × (result.1 ≡ s)

  abbrev Outcomes : Server W → Outcome AuthError (Unit {0}) × Server W → Type 0
  Outcomes s result = Refused s result ⊎ Verifies s result

  module _ (s : Server W) (user : User) (credential : Credential)
      (owner : find_user_by_email sv.users email s.db ≡ ok (some (user, credential)))
      (pending : requires_email_verification credential ≡ true) where
    verify_row :
        (id : ℕ) (row : Outcome AuthError (Option Token))
        → credential.id ≡ some id
        → sv.tokens.find_active_by_credential_account_id id now s.db ≡ row
        → Outcomes s (resume (verify_with sv email code lang now user) (row, s))
    verify_row id (ok none) i f = inl (refl, refl)
    verify_row id (ok (some t)) i f =
        elim (Bool-cases (text_eq t.code_hash (sv.hash_code (sv.to_upper code)))) [
          | inl e ↦ rw e (
              inr (record {
                user = user;
                credential = credential;
                credential_id = id;
                token = t;
                owner = owner;
                pending = pending;
                stored = i;
                active = f;
                matches = eq_of_text_eq t.code_hash _ e;
                run = refl;
              }))
          | inr e ↦ rw e (inl (refl, refl))
        ]
    verify_row id (err e) i f = inl (refl, refl)
    verify_row id (throw e) i f = inl (refl, refl)

    verify_id :
        (id : Option ℕ)
        → credential.id ≡ id
        → Outcomes s (verify_for sv email code lang now user id s)
    verify_id none i = inl (refl, refl)
    verify_id (some id) i =
        verify_row id (sv.tokens.find_active_by_credential_account_id id now s.db) i refl

  verify_owner :
      (s : Server W) (row : Outcome UserError (Option Owned))
      → find_user_by_email sv.users email s.db ≡ row
      → Outcomes s (resume (verify_owned sv email code lang now) (from_users row, s))
  verify_owner s (ok none) f = inl (refl, refl)
  verify_owner s (ok (some (user, credential))) f =
      elim (Bool-cases (requires_email_verification credential)) [
        | inl e ↦ rw e (verify_id s user credential f e credential.id refl)
        | inr e ↦ rw e (inl (refl, refl))
      ]
  verify_owner s (err e) f = inl (refl, refl)
  verify_owner s (throw e) f = inl (refl, refl)

  -- A code either is refused, and nothing is written and nothing published; or the account of the
  -- address is not yet verified, the code in upper case has the hash of its active token, and that
  -- token is saved as used before the event is published.
  pub verify_email_code-Verifies :
      (s : Server W) → Outcomes s (verify_email_code sv email code lang now s)
  unfolding verify_email_code
  verify_email_code-Verifies s = verify_owner s (find_user_by_email sv.users email s.db) refl
