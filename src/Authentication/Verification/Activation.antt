-- ===== src/Authentication/Verification/Activation.antt =====
-- From a verification code to an account that may access the application: the command verify-email of
-- the authentication context, its event, and the user context's reaction to that event.
use stocka_server.Prelude.{
  ℕ, ◌≡◌, refl, sym, ap, ◌∙◌, inl, inr, true, Option, some, [], ◌∷◌, ◌++◌, Text,
}
use stocka_server.Shared.Outcome.{ok, is_ok, ◌>>=◌, pure}
use stocka_server.Shared.Rules.{>>=-inv}
use stocka_server.Shared.Bus.{store, emit}
use stocka_server.Users.Credential
use stocka_server.Users.Credential.{Credential, requires_email_verification, can_access_application}
use stocka_server.Users.Facade
use stocka_server.Users.Facade.{User, find_user_by_email, find_user_by_uuid_with_credential}
use stocka_server.Users.Reactions.{on_email_verification_completed, swallow, with_id}
use stocka_server.Authentication.Services.{email_verification_completed, Server}
use stocka_server.Authentication.VerificationToken.{Token, mark_as_used, locale_of}
use stocka_server.Authentication.Verification.{VerificationServices, verify_email_code}
use stocka_server.Authentication.Verification.Verify.{Verifies, verify_email_code-Verifies}

-- The tables agree with one another, and saving a token touches none of the user context's.
pub record IsConsistent {W : Type 0} (sv : VerificationServices W) : Type 0 where
  pub by_uuid :
      (email : Text) (user : User) (credential : Credential) (w : W)
      → find_user_by_email sv.users email w ≡ ok (some (user, credential))
      → find_user_by_uuid_with_credential sv.users user.uuid w ≡ ok (some (user, credential))
  pub by_id :
      (email : Text) (user : User) (credential : Credential) (id : ℕ) (w : W)
      → find_user_by_email sv.users email w ≡ ok (some (user, credential))
      → credential.id ≡ some id
      → sv.users.find_credential_by_id id w ≡ ok (some credential)
  pub users_apart :
      (uuid : Text) (t : Token) (w : W)
      → find_user_by_uuid_with_credential sv.users uuid (sv.tokens.persist t w).1
        ≡ find_user_by_uuid_with_credential sv.users uuid w
  pub credentials_apart :
      (id : ℕ) (t : Token) (w : W)
      → sv.users.find_credential_by_id id (sv.tokens.persist t w).1
        ≡ sv.users.find_credential_by_id id w

module _ {W : Type 0} (sv : VerificationServices W) (consistent : IsConsistent sv)
    (email code : Text) (lang : Option Text) (now later : ℕ) where
  -- The event was published, and its handler saves the account, verified, as its last act.
  pub record Activates (s s' : Server W) : Type 0 where
    pub user : User
    pub credential : Credential
    pub event :
        s'.published
        ≡ s.published ++ email_verification_completed user.uuid email (locale_of lang) ∷ []
    pub reaction :
        on_email_verification_completed sv.users later user.uuid s'.db
        ≡ swallow sv.users later (
            (sv.users.persist_credential (Credential.verify_email later credential) >>= λ _saved.
            pure tt)
              s'.db)
    pub was_pending : requires_email_verification credential ≡ true
    pub may_access : can_access_application (Credential.verify_email later credential) ≡ true

  module _ (user : User) (credential : Credential) (id : ℕ) (w : W)
      (by_uuid : find_user_by_uuid_with_credential sv.users user.uuid w
        ≡ ok (some (user, credential)))
      (has_id : credential.id ≡ some id)
      (by_id : sv.users.find_credential_by_id id w ≡ ok (some credential)) where
    verified_row :
        Facade.verify_email sv.users later id w
        ≡ (sv.users.persist_credential (Credential.verify_email later credential) >>= λ _saved.
              pure tt)
            w
    unfolding Facade.verify_email
    verified_row = rw by_id refl

    reacts :
        on_email_verification_completed sv.users later user.uuid w
        ≡ swallow sv.users later (
            (sv.users.persist_credential (Credential.verify_email later credential) >>= λ _saved.
            pure tt)
              w)
    unfolding on_email_verification_completed
    reacts =
        rw by_uuid refl
        ∙ ap (λ i. with_id sv.users later (Facade.verify_email sv.users later) i w) has_id
        ∙ ap (swallow sv.users later) (verified_row)

  accessible : (c : Credential) → can_access_application (Credential.verify_email later c) ≡ true
  unfolding Credential.verify_email
  accessible c = refl

  used_token :
      (s s' : Server W) (v : Verifies sv email code lang now s (ok tt, s'))
      → (s'.db ≡ (sv.tokens.persist (mark_as_used now v.user.uuid email lang v.token).0 s.db).1)
        × (s'.published
            ≡ s.published ++ email_verification_completed v.user.uuid email (locale_of lang) ∷ [])
  unfolding mark_as_used
  used_token s s' v =
      let used = mark_as_used now v.user.uuid email lang v.token in
      let (saved, s1, h, k) =
        >>=-inv (store (sv.tokens.persist used.0)) (λ _saved. emit (used.1 ∷ [])) (sym v.run) in
      let same : s1 ≡ record s { db = (sv.tokens.persist used.0 s.db).1 } = ap (λ t. t.1) (sym h) in
      let last : record s1 { published = s1.published ++ used.1 ∷ [] } ≡ s' = ap (λ t. t.1) k in
      (
        ap (λ s. s.db) (sym last) ∙ ap (λ s. s.db) same,
        ap (λ s. s.published) (sym last) ∙ ap (λ s. s.published ++ used.1 ∷ []) same,
      )

  -- Where the tables agree with one another: if verify-email succeeds, it has published its event, and
  -- the user context's handler of that event, whenever it runs, ends by saving the account that was
  -- waiting for its verification as one that may access the application.
  pub verify_email_code-Activates :
      (s s' : Server W) → verify_email_code sv email code lang now s ≡ (ok tt, s') → Activates s s'
  verify_email_code-Activates s s' h = elim (verify_email_code-Verifies sv email code lang now s) [
    | inl refused ↦ cc (ap (λ t. is_ok t.0) (sym h), refused.0)
    | inr v ↦ activates (rw h at v)
  ]
    where
      activates : Verifies sv email code lang now s (ok tt, s') → Activates s s'
      activates v =
          let (db, published) = used_token s s' v in
          let used = (mark_as_used now v.user.uuid email lang v.token).0 in
          let by_uuid =
            ap (find_user_by_uuid_with_credential sv.users v.user.uuid) db
            ∙ consistent.users_apart v.user.uuid used s.db
            ∙ consistent.by_uuid email v.user v.credential s.db v.owner in
          let by_id =
            ap (sv.users.find_credential_by_id v.credential_id) db
            ∙ consistent.credentials_apart v.credential_id used s.db
            ∙ consistent.by_id email v.user v.credential v.credential_id s.db v.owner v.stored in
          record {
            user = v.user;
            credential = v.credential;
            event = published;
            reaction = reacts v.user v.credential v.credential_id s'.db by_uuid v.stored by_id;
            was_pending = v.pending;
            may_access = accessible v.credential;
          }
