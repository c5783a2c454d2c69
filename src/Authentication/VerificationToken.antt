-- ===== src/Authentication/VerificationToken.antt =====
-- `EmailVerificationTokenAggregate`
-- (src/bounded-contexts/authentication/domain/aggregates/email-verification-token.aggregate.ts).
-- A method that applies an event answers with it. Dates are in milliseconds.
pub mod Cooldown
use stocka_server.Prelude.{
  ℕ, zero, suc, ◌+◌, ◌-◌, ◌*◌, ◌/◌, min, Bool, true, false, not, ◌&&◌, Option, none, some, is_some,
  or_else, List, [], ◌∷◌, length, if◌then◌else◌, ltb, leb, Text, codes, trim,
}
use stocka_server.Shared.Outcome.{Outcome, ok, throw, and_then}
use stocka_server.Authentication.Services.{
  AuthError, empty_code_hash, AuthEvent, email_verification_requested, email_verification_completed,
  verification_code_resent,
}

pub record Token : Type 0 where
  pub id : Option ℕ
  pub uuid : Text
  pub credential_account_id : ℕ
  pub code_hash : Text
  pub expires_at : ℕ
  pub used_at : Option ℕ
  pub resend_count : ℕ
  pub last_resent_at : Option ℕ
  pub updated_at : ℕ
  pub archived_at : Option ℕ

-- `new CodeHashVO(value)`
abbrev pub blank_or : AuthError → Text → Text → Outcome AuthError Text
blank_or e [] value = throw e
blank_or e (_ ∷ _) value = ok value

unfoldable pub create_code_hash : Text → Outcome AuthError Text
create_code_hash value = blank_or empty_code_hash (trim value) value

-- `RESEND_COOLDOWNS`, in seconds.
abbrev pub resend_cooldowns : List ℕ
resend_cooldowns = 0 ∷ 60 ∷ 120 ∷ 300 ∷ []

abbrev pub max_resends_per_hour : ℕ
max_resends_per_hour = 5

-- `list[index]` of an index in range.
abbrev pub item : List ℕ → ℕ → ℕ
item [] index = 0
item (n ∷ list) zero = n
item (n ∷ list) (suc index) = item list index

-- The constructor on the properties of a new token.
unfoldable pub new_token : ℕ → Text → ℕ → Text → ℕ → ℕ → Option ℕ → Outcome AuthError Token
new_token now uuid credential_id code_hash expires_at resend_count last_resent_at =
    and_then (create_code_hash code_hash) λ hash. ok (record {
      id = none;
      uuid = uuid;
      credential_account_id = credential_id;
      code_hash = hash;
      expires_at = expires_at;
      used_at = none;
      resend_count = resend_count;
      last_resent_at = last_resent_at;
      updated_at = now;
      archived_at = none;
    })

-- `if (props.code)`
abbrev pub requested : Token → Text → Text → List AuthEvent
requested t email [] = []
requested t email (c ∷ code) =
    email_verification_requested t.credential_account_id email (c ∷ code) ∷ []

-- `create`
unfoldable pub create_token :
    ℕ → Text → ℕ → Text → ℕ → Text → Text → Outcome AuthError (Token × List AuthEvent)
create_token now uuid credential_id code_hash expires_at email code =
    and_then (new_token now uuid credential_id code_hash expires_at 0 none)
      λ t. ok (t, requested t email code)

abbrev pub locale_of : Option Text → Text
locale_of lang = or_else lang (codes "es")

-- `createForResend`
unfoldable pub create_for_resend :
    ℕ → Text → ℕ → Text → ℕ → Text → Text → Option Text → Outcome AuthError (Token × AuthEvent)
create_for_resend now uuid credential_id code_hash expires_at email code lang =
    and_then (new_token now uuid credential_id code_hash expires_at 1 (some now))
      λ t. ok (t, verification_code_resent t.credential_account_id email code 1 (locale_of lang))

abbrev pub is_expired : ℕ → Token → Bool
is_expired now t = ltb t.expires_at now

abbrev pub is_used : Token → Bool
is_used t = is_some t.used_at

unfoldable pub is_valid : ℕ → Token → Bool
is_valid now t = not (is_some t.archived_at) && (not (is_expired now t) && not (is_used t))

unfoldable pub mark_as_used : ℕ → Text → Text → Option Text → Token → Token × AuthEvent
mark_as_used now user_uuid email lang t = (
  record t { used_at = some now; updated_at = now },
  email_verification_completed user_uuid email (locale_of lang),
)

-- `getCurrentCooldownSeconds`
unfoldable pub current_cooldown_seconds : Token → ℕ
current_cooldown_seconds t =
    item resend_cooldowns (min t.resend_count (length resend_cooldowns - 1))

-- Whether the whole seconds since `last` are at least `seconds`, which is not 0.
abbrev pub waited : ℕ → ℕ → Option ℕ → Bool
waited now seconds none = true
waited now seconds (some last) = leb seconds ((now - last) / 1000)

unfoldable pub can_resend : ℕ → Token → Bool
unfolding current_cooldown_seconds
can_resend now t =
    if leb max_resends_per_hour t.resend_count
    then false
    else if ltb 0 (current_cooldown_seconds t)
    then waited now (current_cooldown_seconds t) t.last_resent_at
    else true

-- `Math.max(0, cooldown - Math.floor((now - last) / 1000))`; the floor is negative before `last`.
abbrev pub seconds_left : ℕ → ℕ → Option ℕ → ℕ
seconds_left now cooldown none = 0
seconds_left now cooldown (some last) =
    if leb last now then cooldown - (now - last) / 1000 else cooldown + (last - now + 999) / 1000

-- `getSecondsUntilCanResend`
unfoldable pub seconds_until_can_resend : ℕ → Token → ℕ
unfolding current_cooldown_seconds
seconds_until_can_resend now t = seconds_left now (current_cooldown_seconds t) t.last_resent_at

-- `getRemainingResends`
unfoldable pub remaining_resends : Token → ℕ
remaining_resends t = max_resends_per_hour - t.resend_count

unfoldable pub update_code :
    ℕ → Text → ℕ → Text → Text → Option Text → Token → Outcome AuthError (Token × AuthEvent)
update_code now code_hash expires_at email code lang t =
    and_then (create_code_hash code_hash) λ hash.
      let t' : Token = record t {
        code_hash = hash;
        expires_at = expires_at;
        resend_count = suc t.resend_count;
        last_resent_at = some now;
        updated_at = now;
      } in
      ok (
        t',
        verification_code_resent t'.credential_account_id email code t'.resend_count
            (locale_of lang),
      )
