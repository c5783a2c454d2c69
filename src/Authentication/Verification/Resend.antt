-- ===== src/Authentication/Verification/Resend.antt =====
-- What resend-verification-code does to the tokens and to the event bus.
use stocka_server.Prelude.{ℕ, suc, ◌≤◌, ◌≡◌, ◌⊎◌, true, none, some}
use stocka_server.Shared.Outcome.{Outcome, ok}
use stocka_server.Authentication.Services.{AuthError, AuthEvent, verification_code_resent, Server}
use stocka_server.Authentication.VerificationToken.{
  Token, can_resend, max_resends_per_hour, locale_of,
}
use stocka_server.Authentication.Verification.{
  VerificationServices, ResendRequest, Resent, expires_at, save_and_commit,
}

module _ {W : Type 0} (sv : VerificationServices W) (r : ResendRequest) where
  abbrev event_of : Token → AuthEvent
  event_of t =
      verification_code_resent t.credential_account_id r.email r.code t.resend_count
        (locale_of r.lang)

  -- Where the token comes from: it is new, or the active one, which could be sent again.
  abbrev pub IsFrom : ℕ → Server W → Token → Type 0
  IsFrom id s after =
      ((sv.tokens.find_active_by_credential_account_id id r.now s.db ≡ ok none)
        × (after.resend_count ≡ 1))
      ⊎ ((before : Token) × (sv.tokens.find_active_by_credential_account_id id r.now s.db
            ≡ ok (some before))
          × (can_resend r.now before ≡ true)
          × (after.resend_count ≡ suc before.resend_count))

  -- A code was sent: the token `after` was handed to the repository, and then its event to the bus.
  pub record Sends (s : Server W) (result : Outcome AuthError Resent × Server W) : Type 0 where
    pub credential_id : ℕ
    pub after : Token
    pub answer : Resent
    pub hashed : after.code_hash ≡ sv.hash_code r.code
    pub expires : after.expires_at ≡ expires_at sv r
    pub stamped : after.last_resent_at ≡ some r.now
    pub limited : after.resend_count ≤ max_resends_per_hour
    pub from : IsFrom credential_id s after
    pub run : result ≡ save_and_commit sv r answer (after, event_of after) s

  -- Nothing happened.
  abbrev pub Silent : Server W → Outcome AuthError Resent × Server W → Type 0
  Silent s result = result.1 ≡ s

  abbrev Outcomes : Server W → Outcome AuthError Resent × Server W → Type 0
  Outcomes s result = Silent s result ⊎ Sends s result
