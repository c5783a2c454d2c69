-- ===== src/Authentication/Tokens.antt =====
-- The JSON web tokens of the sagas sign-in and refresh-session, and what their step generate-tokens
-- asks of the other contexts. The package @nestjs/jwt with its secrets, the configuration, and the
-- facades of the other contexts are parameters. Signing and verifying read the clock.
pub mod Signed
use stocka_server.Prelude.{
  ℕ, zero, suc, ◌≡◌, refl, ◌⊎◌, inl, inr, Option, none, some, [], ◌∷◌, Text, codes,
}
use stocka_server.Shared.Outcome.{Outcome, ok, and_then}
use stocka_server.Authentication.Services.{AuthError}

-- `TierLimits`
pub record TierLimits : Type 0 where
  pub tier : Text
  pub max_custom_rooms : ℕ
  pub max_store_rooms : ℕ
  pub max_warehouses : ℕ

pub record Membership : Type 0 where
  pub tenant_uuid : Text
  pub role : Text

pub record SocialName : Type 0 where
  pub given_name : Option Text
  pub family_name : Option Text
  pub avatar_url : Option Text

-- The facades of the other contexts, by the uuid of a user.
pub record Facades (W : Type 0) : Type 0 where
  pub get_active_membership : Text → W → Outcome AuthError (Option Membership)
  pub get_tier_limits : Text → W → Outcome AuthError (Option TierLimits)
  pub find_display_name : Text → W → Outcome AuthError (Option Text)
  pub find_social_name : Text → W → Outcome AuthError SocialName
  pub get_onboarding_status : Text → W → Outcome AuthError (Option Text)
  pub find_username : Text → W → Outcome AuthError (Option Text)

pub record Payload : Type 0 where
  pub sub : Text
  pub email : Text
  pub tenant_id : Option Text
  pub role : Option Text
  pub display_name : Option Text
  pub tier_limits : Option TierLimits

-- What `decode` gives: the fields `sub` and `email`, where they are strings.
pub record Decoded : Type 0 where
  pub sub : Option Text
  pub email : Option Text

-- The tokens are signed at a time, with an `expiresIn`, and a refresh token with its id (`jwtid`).
pub record Jwt : Type 0 where
  pub access_expiration : Option Text  -- `JWT_ACCESS_EXPIRATION`
  pub refresh_expiration : Option Text  -- `JWT_REFRESH_EXPIRATION`
  pub sign_access : ℕ → Text → Payload → Outcome AuthError Text
  pub sign_refresh : ℕ → Text → Text → Payload → Outcome AuthError Text
  pub verify_refresh : ℕ → Text → Outcome AuthError (Unit {0})
  pub decode : Text → Option Decoded  -- `none` for what is no object

-- The tokens, and the data about the user for the answer.
pub record Issued : Type 0 where
  pub access_token : Text
  pub refresh_token : Text
  pub social_name : SocialName
  pub onboarding_status : Option Text

-- `membership?.tenantUUID ?? null`, `membership?.role ?? null`
abbrev pub tenant_of : Option Membership → Option Text
tenant_of none = none
tenant_of (some m) = some m.tenant_uuid

abbrev pub role_of : Option Membership → Option Text
role_of none = none
role_of (some m) = some m.role

-- The test `!text` of the steps: an empty text counts as none.
abbrev pub non_empty : Option Text → Option Text
non_empty none = none
non_empty (some []) = none
non_empty (some (c ∷ s)) = some (c ∷ s)

pub non_empty-cases : (t : Text) → (non_empty (some t) ≡ some t) ⊎ (non_empty (some t) ≡ none)
non_empty-cases [] = inr refl
non_empty-cases (c ∷ s) = inl refl

-- `!credential.id`: 0 counts as none.
abbrev pub truthy_id : Option ℕ → Option ℕ
truthy_id none = none
truthy_id (some zero) = none
truthy_id (some (suc n)) = some (suc n)

abbrev pub refresh_token_of : Option Issued → Option Text
refresh_token_of none = none
refresh_token_of (some issued) = some issued.refresh_token

-- `configured || fallback`
abbrev pub or_default : Option Text → Text → Text
or_default none fallback = fallback
or_default (some []) fallback = fallback
or_default (some (c ∷ s)) fallback = c ∷ s

abbrev pub access_expires_in : Jwt → Text
access_expires_in jwt = or_default jwt.access_expiration (codes "15m")

abbrev pub refresh_expires_in : Jwt → Text
refresh_expires_in jwt = or_default jwt.refresh_expiration (codes "7d")

module _ {W : Type 0} (facades : Facades W) (jwt : Jwt) (now : ℕ) where
  -- The body of the step generate-tokens: the queries, of which the first that rejects decides, then
  -- the two signatures. `jti` is a fresh uuid.
  unfoldable pub issue_tokens : Text → Text → Text → W → Outcome AuthError Issued
  issue_tokens jti uuid email w = and_then (facades.get_active_membership uuid w) λ membership.
      and_then (facades.get_tier_limits uuid w) λ tier_limits.
        and_then (facades.find_display_name uuid w) λ display_name.
          and_then (facades.find_social_name uuid w) λ social_name.
            and_then (facades.get_onboarding_status uuid w) λ onboarding_status.
              let payload : Payload = record {
                sub = uuid;
                email = email;
                tenant_id = tenant_of membership;
                role = role_of membership;
                display_name = display_name;
                tier_limits = tier_limits;
              } in
              and_then (jwt.sign_access now (access_expires_in jwt) payload) λ access_token.
                and_then (jwt.sign_refresh now (refresh_expires_in jwt) jti payload)
                  λ refresh_token. ok (record {
                    access_token = access_token;
                    refresh_token = refresh_token;
                    social_name = social_name;
                    onboarding_status = onboarding_status;
                  })
