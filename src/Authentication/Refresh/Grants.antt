-- ===== src/Authentication/Refresh/Grants.antt =====
-- For whom the saga refresh-session issues new tokens.
use stocka_server.Prelude.{
  ◌≡◌, refl, ap, ◌∙◌, subst, true, Bool-cases, Option, none, some, inl, inr, ℕ, Text,
}
use stocka_server.Shared.Outcome.{Outcome, ok, err, throw, and_then-eq-ok, ok-injective}
use stocka_server.Users.Facade.{User}
use stocka_server.Authentication.Services.{AuthError, from_users, from_users-eq-ok}
use stocka_server.Authentication.Sessions.{Session, session_is_valid}
use stocka_server.Authentication.Refresh.{
  RefreshServices, Grant, or_expired, usable, subject_of, present, check_refresh_token,
}

module _ {W : Type 0} (sv : RefreshServices W) (now : ℕ) (token : Text) (w : W) where
  -- There is a session of this token that is neither archived nor expired, the token is genuine, and
  -- the user whom it names exists.
  pub record IsGranted (g : Grant) : Type 0 where
    pub stored : sv.sessions.find_by_token_hash (sv.hash_token token) w ≡ ok (some g.session)
    pub valid : session_is_valid now g.session ≡ true
    pub genuine : (u : Unit {0}) × (sv.jwt.verify_refresh now token ≡ ok u)
    pub names :
        (sub : Text) × (subject_of (sv.jwt.decode token) ≡ ok (sub, g.email))
        × (sv.users.find_user_by_uuid sub w ≡ ok (some g.user))

  usable-Valid :
      (row : Option Session) (s : Session)
      → usable now row ≡ ok s
      → (row ≡ some s) × (session_is_valid now s ≡ true)
  usable-Valid none s h = cc
  usable-Valid (some r) s h = elim (Bool-cases (session_is_valid now r)) [
    | inl v ↦
        let same : r ≡ s = ok-injective (rw v at h) in
        subst (λ s. (some r ≡ some s) × (session_is_valid now s ≡ true)) same (refl, v)
    | inr v ↦ cc (h, v)
  ]

  verified :
      (r : Outcome AuthError (Unit {0})) (u : Unit {0})
      → or_expired r ≡ ok u
      → (u : Unit {0}) × (r ≡ ok u)
  verified (ok u) _ h = (u, refl)
  verified (err e) _ h = cc
  verified (throw e) _ h = cc

  found : (row : Option User) (user : User) → present row ≡ ok user → row ≡ some user
  found none user h = cc
  found (some u) user h = cc

  pub check_refresh_token-IsGranted :
      (g : Grant) → check_refresh_token sv now token w ≡ ok g → IsGranted g
  unfolding check_refresh_token
  check_refresh_token-IsGranted g h =
      let (row, stored, h1) =
        and_then-eq-ok (sv.sessions.find_by_token_hash (sv.hash_token token) w) _ h in
      let (session, valid, h2) = and_then-eq-ok (usable now row) _ h1 in
      let (u, genuine, h3) = and_then-eq-ok (or_expired (sv.jwt.verify_refresh now token)) _ h2 in
      let (claims, named, h4) = and_then-eq-ok (subject_of (sv.jwt.decode token)) _ h3 in
      let (user_row, user_found, h5) =
        and_then-eq-ok (from_users (sv.users.find_user_by_uuid claims.0 w)) _ h4 in
      let (user, user_is, h6) = and_then-eq-ok (present user_row) _ h5 in
      let (is_row, is_valid) = usable-Valid row session valid in
      subst IsGranted (ok-injective h6) (record {
        stored = stored ∙ ap (λ row. ok row) is_row;
        valid = is_valid;
        genuine = verified _ u genuine;
        names = (
          claims.0,
          named,
          from_users-eq-ok _ user_found ∙ ap (λ row. ok row) (found user_row user user_is),
        );
      })
