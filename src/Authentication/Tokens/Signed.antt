-- ===== src/Authentication/Tokens/Signed.antt =====
-- The refresh token that the step generate-tokens issues.
use stocka_server.Prelude.{ℕ, ◌≡◌, refl, ap, subst, Text}
use stocka_server.Shared.Outcome.{ok, and_then-eq-ok, ok-injective}
use stocka_server.Authentication.Tokens.{
  Facades, Jwt, Payload, Issued, issue_tokens, refresh_expires_in,
}

module _ {W : Type 0} (facades : Facades W) (jwt : Jwt) (now : ℕ) (jti uuid email : Text) where
  -- A token that was signed now for the user, with the configured lifetime and the id of this run.
  pub record IsSigned (token : Text) : Type 0 where
    pub payload : Payload
    pub signed : jwt.sign_refresh now (refresh_expires_in jwt) jti payload ≡ ok token
    pub for_user : payload.sub ≡ uuid
    pub for_email : payload.email ≡ email

  pub issue_tokens-IsSigned :
      (w : W) (i : Issued)
      → issue_tokens facades jwt now jti uuid email w ≡ ok i
      → IsSigned i.refresh_token
  unfolding issue_tokens
  issue_tokens-IsSigned w i h =
      let (_, _, h1) = and_then-eq-ok (facades.get_active_membership uuid w) _ h in
      let (_, _, h2) = and_then-eq-ok (facades.get_tier_limits uuid w) _ h1 in
      let (_, _, h3) = and_then-eq-ok (facades.find_display_name uuid w) _ h2 in
      let (_, _, h4) = and_then-eq-ok (facades.find_social_name uuid w) _ h3 in
      let (_, _, h5) = and_then-eq-ok (facades.get_onboarding_status uuid w) _ h4 in
      let (_, _, h6) = and_then-eq-ok (jwt.sign_access now _ _) _ h5 in
      let (token, signed, h7) = and_then-eq-ok (jwt.sign_refresh now _ jti _) _ h6 in
      subst IsSigned (ap (λ i. i.refresh_token) (ok-injective h7))
        (record { payload = _; signed = signed; for_user = refl; for_email = refl })
