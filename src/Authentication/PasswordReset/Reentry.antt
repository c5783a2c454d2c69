-- ===== src/Authentication/PasswordReset/Reentry.antt =====
-- From the reset of a password to the sign-in with the new one: the saga reset-password, its event, the
-- user context's reaction to that event, and the checks of the saga sign-in.
use stocka_server.Prelude.{
  ℕ, ◌≡◌, refl, sym, ap, ◌∙◌, inl, inr, true, false, is_some, Option, some, [], ◌∷◌, ◌++◌, Text,
  trim, subst,
}
use stocka_server.Shared.Outcome.{ok, ok-injective}
use stocka_server.Saga.Retry.{Failure}
use stocka_server.Saga.Process.{States}
use stocka_server.Users.Credential
use stocka_server.Users.Credential.{Credential, is_pending, is_empty}
use stocka_server.Users.Facade
use stocka_server.Users.Facade.{User, UserContracts, find_user_by_email_or_username}
use stocka_server.Users.Reactions.{on_password_reset}
use stocka_server.Authentication.Services.{
  AuthError, password_reset_completed, user_password_reset, Server,
}
use stocka_server.Authentication.Sagas.{Transaction, Isolates}
use stocka_server.Authentication.SignIn.{SignInServices, Entrant, check_credentials}
use stocka_server.Authentication.PasswordReset.{ResetToken, ResetServices, run_reset_password}
use stocka_server.Authentication.PasswordReset.Reset.{begun_db}
use stocka_server.Authentication.PasswordReset.AllOrNothing.{
  IsInTransaction, run_reset_password-Resets,
}

-- The account with another password.
abbrev pub with_password : ℕ → Text → Credential → Credential
with_password now hash c = record c { password_hash = some hash; updated_at = now }

-- The tables of users agree with one another; a password that was saved is found by the next query.
pub record IsConsistent {W : Type 0} (users : UserContracts W) : Type 0 where
  pub by_id :
      (identifier : Text) (user : User) (credential : Credential) (id : ℕ) (w : W)
      → find_user_by_email_or_username users identifier w ≡ ok (some (user, credential))
      → credential.id ≡ some id
      → users.find_credential_by_id id w ≡ ok (some credential)
  pub saves :
      (identifier : Text) (user : User) (credential saved : Credential) (now : ℕ) (hash : Text)
      (w : W)
      → find_user_by_email_or_username users identifier w ≡ ok (some (user, credential))
      → (users.persist_credential (with_password now hash credential) w).0 ≡ ok saved
      → find_user_by_email_or_username users identifier
          (users.persist_credential (with_password now hash credential) w).1
        ≡ ok (some (user, with_password now hash credential))

module _ {W : Type 0} (users : UserContracts W) (consistent : IsConsistent users)
    (si : SignInServices W) where
  -- The services of sign-in, with the same users.
  abbrev pub of_users : SignInServices W
  of_users = record si { users = users }

  -- An account, and what has to hold for its owner to be let in.
  pub record IsReady (identifier password hash : Text) (id now : ℕ) (w : W) (user : User)
      (credential : Credential) : Type 0 where
    pub owner : find_user_by_email_or_username users identifier w ≡ ok (some (user, credential))
    pub has_id : credential.id ≡ some id
    pub live : is_some user.archived_at ≡ false
    pub confirmed : is_pending credential.status ≡ false
    pub not_blank : is_empty (trim hash) ≡ false
    pub matches : si.compare_passwords password hash ≡ ok true
    pub saved :
        (c : Credential) × ((users.persist_credential (with_password now hash credential) w).0
          ≡ ok c)
    pub named : (w : W) → (name : Option Text) × (si.facades.find_username user.uuid w ≡ ok name)

  module _ (identifier password hash : Text) (id now : ℕ) (w : W) (user : User)
      (credential : Credential)
      (r : IsReady identifier password hash id now w user credential) where
    reacts :
        (on_password_reset users now id hash w).1
        ≡ (users.persist_credential (with_password now hash credential) w).1
    unfolding on_password_reset Facade.update_password_hash Credential.update_password_hash
    reacts =
        rw (consistent.by_id identifier user credential id w r.owner r.has_id)
          (rw r.not_blank (rw r.saved.1 refl))

    admits :
        (w' : W)
        → find_user_by_email_or_username users identifier w'
          ≡ ok (some (user, with_password now hash credential))
        → (e : Entrant) × (check_credentials of_users identifier password w' ≡ ok e)
          × (e.user ≡ user)
    unfolding check_credentials
    admits w' f =
        let (name, n) = r.named w' in
        rw f (rw r.matches (rw r.live (rw r.confirmed (rw n (_, refl, refl)))))

module _ {W R : Type 0} (sv : ResetServices W) (tx : Transaction W)
    (message : Failure AuthError → Text) (now : ℕ) (rows saved : W → R)
    (isolates : Isolates tx rows saved)
    (transactional : IsInTransaction sv tx message now rows saved isolates)
    (consistent : IsConsistent sv.users) (si : SignInServices W) where
  module _ (id correlation_id token new_password : Text) (s : Server W) (states : States)
      (t : ResetToken) (identifier : Text) (later : ℕ) (w : W) (user : User)
      (credential : Credential) where
    -- A reset that ended well is announced; and whoever could sign in but for the password, does so with
    -- the new password once the user context has reacted to what was announced, on whatever database
    -- that reaction finds.
    pub run_reset_password-Readmits :
        (run_reset_password sv now tx message id correlation_id token new_password s states).0
          ≡ ok tt
        → sv.reset_tokens.find_by_token_hash
            (sv.hash_code token)
            (begun_db sv tx message now token new_password s)
          ≡ ok (some t)
        → IsReady sv.users consistent si identifier new_password
            (sv.hash_password new_password)
            t.credential_account_id
            later
            w
            user
            credential
        → let account = t.credential_account_id in
          let hash = sv.hash_password new_password in
          let after_reset =
            run_reset_password sv now tx message id correlation_id token new_password s states in
          let reacted = on_password_reset sv.users later account hash w in
          (after_reset.1.server.published
            ≡ s.published
              ++ password_reset_completed account ∷ user_password_reset account hash ∷ [])
          × ((e : Entrant) × (check_credentials
                  (of_users sv.users consistent si)
                  identifier
                  new_password
                  reacted.1
                ≡ ok e)
              × (e.user ≡ user))
    run_reset_password-Readmits h f r = (
      elim (run_reset_password-Resets sv tx message now rows saved isolates transactional id
          correlation_id token new_password s states) [
            | inl (_, resets) ↦
                let found : some resets.reset_token ≡ some t =
                  ok-injective (sym resets.authorised.found ∙ f) in
                let same : resets.reset_token ≡ t = cc found in
                subst
                  (λ account.
                    (run_reset_password sv now tx message id correlation_id token new_password s
                      states).1.server.published
                    ≡ s.published
                      ++ password_reset_completed account
                        ∷ user_password_reset account (sv.hash_password new_password)
                        ∷ [])
                  (ap (λ t. t.credential_account_id) same) resets.published
            | inr ((e, t), _, _) ↦ cc (h, t)
          ],
      admits sv.users consistent si identifier new_password (sv.hash_password new_password)
          t.credential_account_id later w user credential r _
          (ap (find_user_by_email_or_username sv.users identifier) (
              reacts sv.users consistent si identifier new_password (sv.hash_password new_password)
                t.credential_account_id later w user credential r)
            ∙ consistent.saves identifier user credential r.saved.0 later
                (sv.hash_password new_password) w r.owner r.saved.1),
    )
