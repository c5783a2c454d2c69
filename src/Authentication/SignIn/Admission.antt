-- ===== src/Authentication/SignIn/Admission.antt =====
-- Whom the saga sign-in lets in.
use stocka_server.Prelude.{
  ◌≡◌, subst, Bool, true, false, Bool-cases, Option, none, some, is_some, inl, inr, Text,
}
use stocka_server.Shared.Outcome.{ok, and_then-eq-ok, ok-injective}
use stocka_server.Users.Credential.{Credential, has_password, is_pending}
use stocka_server.Users.Facade.{User, Owned, find_user_by_email_or_username}
use stocka_server.Authentication.Services.{from_users, from_users-eq-ok}
use stocka_server.Authentication.SignIn.{
  SignInServices, Entrant, timing_safe_dummy_hash, hash_of, reject, admit, check_owner,
  check_credentials,
}

module _ {W : Type 0} (sv : SignInServices W) (identifier password : Text) (w : W) where
  -- The account exists and is live, its email is verified, it has a password, and it is this one.
  pub record IsAdmitted (e : Entrant) : Type 0 where
    pub found :
        find_user_by_email_or_username sv.users identifier w ≡ ok (some (e.user, e.credential))
    pub password_set : has_password e.credential ≡ true
    pub matches : sv.compare_passwords password (hash_of e.credential) ≡ ok true
    pub live : is_some e.user.archived_at ≡ false
    pub confirmed : is_pending e.credential.status ≡ false

  reject-not_ok : (e : Entrant) → reject sv password ≡ ok e → ⊥
  reject-not_ok e h =
      let (_, _, k) =
        and_then-eq-ok {B = Entrant} (sv.compare_passwords password timing_safe_dummy_hash) _ h in
      cc k

  admit-IsAdmitted :
      (user : User) (credential : Credential) (valid : Bool) (e : Entrant)
      → find_user_by_email_or_username sv.users identifier w ≡ ok (some (user, credential))
      → has_password credential ≡ true
      → sv.compare_passwords password (hash_of credential) ≡ ok valid
      → admit sv user credential valid w ≡ ok e
      → IsAdmitted e
  admit-IsAdmitted user credential false e f p m h = cc
  admit-IsAdmitted user credential true e f p m h = elim (Bool-cases (is_some user.archived_at)) [
    | inl a ↦ cc (h, a)
    | inr a ↦ elim (Bool-cases (is_pending credential.status)) [
      | inl c ↦ cc (h, a, c)
      | inr c ↦
          let (name, n, k) =
            and_then-eq-ok (sv.facades.find_username user.uuid w) _ (rw c at (rw a at h)) in
          subst IsAdmitted (ok-injective k)
            (record { found = f; password_set = p; matches = m; live = a; confirmed = c })
    ]
  ]

  owner-IsAdmitted :
      (owner : Option Owned) (e : Entrant)
      → find_user_by_email_or_username sv.users identifier w ≡ ok owner
      → check_owner sv password owner w ≡ ok e
      → IsAdmitted e
  owner-IsAdmitted none e f h = absurd (reject-not_ok e h)
  owner-IsAdmitted (some (user, credential)) e f h = elim (Bool-cases (has_password credential)) [
    | inl p ↦
        let (valid, m, k) =
          and_then-eq-ok (sv.compare_passwords password (hash_of credential))
            (λ valid. admit sv user credential valid w) (rw p at h) in
        admit-IsAdmitted user credential valid e f p m k
    | inr p ↦ absurd (reject-not_ok e (rw p at h))
  ]

  pub check_credentials-IsAdmitted :
      (e : Entrant) → check_credentials sv identifier password w ≡ ok e → IsAdmitted e
  unfolding check_credentials
  check_credentials-IsAdmitted e h =
      let (owner, f, k) =
        and_then-eq-ok (from_users (find_user_by_email_or_username sv.users identifier w))
          (λ owner. check_owner sv password owner w) h in
      owner-IsAdmitted owner e (from_users-eq-ok _ f) k
