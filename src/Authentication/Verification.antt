-- ===== src/Authentication/Verification.antt =====
-- The commands resend-verification-code and verify-email
-- (src/bounded-contexts/authentication/application/commands). The repository of the tokens and the
-- generator of codes are parameters, and so are upper case and the minutes that a code is valid.
pub mod Resend
pub mod Verify
pub mod Activation
use stocka_server.Prelude.{
  ℕ, zero, suc, ◌+◌, ◌*◌, Bool, true, false, not, Option, none, some, List, [], ◌∷◌, if◌then◌else◌,
  ltb, Text, text_eq,
}
use stocka_server.Prelude.Int.{ℤ, pos, negsuc}
use stocka_server.Shared.Outcome.{
  Outcome, ok, err, throw, Act, ◌>>=◌, ◌>>◌, pure, fail, refuse_if, refuse_on, lift,
}
use stocka_server.Shared.Bus.{Bus, ask, store, emit}
use stocka_server.Users.Credential.{Credential, requires_email_verification}
use stocka_server.Users.Facade.{User, UserContracts, Owned, find_user_by_email}
use stocka_server.Authentication.Services.{
  AuthError, invalid_verification_code, user_already_verified, max_resends_exceeded,
  resend_cooldown_active, AuthEvent, Server, Handler, from_users,
}
use stocka_server.Authentication.VerificationToken.{
  Token, can_resend, seconds_until_can_resend, remaining_resends, current_cooldown_seconds,
  update_code, create_for_resend, mark_as_used,
}

-- `IEmailVerificationTokenContract`; `persist` answers with the token, which the handlers drop.
pub record TokenContract (W : Type 0) : Type 0 where
  pub find_active_by_credential_account_id : ℕ → ℕ → W → Outcome AuthError (Option Token)
  pub persist : Token → Act W AuthError Token

pub record VerificationServices (W : Type 0) : Type 0 where
  pub users : UserContracts W
  pub tokens : TokenContract W
  pub hash_code : Text → Text
  pub to_upper : Text → Text
  pub expiration_minutes : ℕ

-- What a request brings, and what the clock and the generators give while it is handled.
pub record ResendRequest : Type 0 where
  pub email : Text
  pub lang : Option Text
  pub now : ℕ
  pub code : Text  -- of `generateVerificationCode`
  pub uuid : Text  -- of a new token

-- The answer of resend-verification-code, without its text.
pub record Resent : Type 0 where
  pub cooldown_seconds : Option ℕ
  pub remaining_resends : Option ℤ

-- `n - 1`
abbrev pub before : ℕ → ℤ
before zero = negsuc 0
before (suc n) = pos n

-- The answer that does not tell whether there is such an account.
abbrev pub anonymous : Resent
anonymous = record { cooldown_seconds = none; remaining_resends = none }

module _ {W : Type 0} (sv : VerificationServices W) where
  module _ (r : ResendRequest) where
    abbrev pub expires_at : ℕ
    expires_at = r.now + sv.expiration_minutes * 60 * 1000

    -- `if (!existingToken.canResend())`
    abbrev pub resend_refusal : Token → Option AuthError
    resend_refusal t =
        if can_resend r.now t
        then none
        else if ltb 0 (seconds_until_can_resend r.now t)
        then some (resend_cooldown_active (seconds_until_can_resend r.now t))
        else if not (ltb 0 (remaining_resends t))
        then some max_resends_exceeded
        else none

    -- `persist(token); token.commit()`
    abbrev pub save_and_commit : Resent → Token × AuthEvent → Handler W Resent
    save_and_commit answer (t, event) = do
      _saved ← store (sv.tokens.persist t)
      emit (event ∷ [])
      pure answer

    -- The answer reads the token after the change.
    abbrev pub answer_existing : Token → Resent
    answer_existing t = record {
      cooldown_seconds = some (current_cooldown_seconds t);
      remaining_resends = some (before (remaining_resends t));
    }

    abbrev pub answer_new : Token → Resent
    answer_new t = record {
      cooldown_seconds = some 0;
      remaining_resends = some (pos (remaining_resends t));
    }

    abbrev pub resend_existing : Token → Handler W Resent
    resend_existing t = do
      refuse_on (resend_refusal t)
      changed ← lift (update_code r.now (sv.hash_code r.code) expires_at r.email r.code r.lang t)
      save_and_commit (answer_existing changed.0) changed

    abbrev pub resend_new : ℕ → Handler W Resent
    resend_new credential_id = do
      created ← lift (
          create_for_resend r.now r.uuid credential_id (sv.hash_code r.code) expires_at r.email
            r.code r.lang)
      save_and_commit (answer_new created.0) created

    abbrev pub resend_token : ℕ → Option Token → Handler W Resent
    resend_token credential_id none = resend_new credential_id
    resend_token credential_id (some t) = resend_existing t

    abbrev pub resend_for : Option ℕ → Handler W Resent
    resend_for none = pure anonymous
    resend_for (some id) =
        ask (sv.tokens.find_active_by_credential_account_id id r.now) >>= resend_token id

    abbrev pub resend_owned : Option Owned → Handler W Resent
    resend_owned none = pure anonymous
    resend_owned (some (user, credential)) =
        refuse_if (not (requires_email_verification credential)) user_already_verified
        >> resend_for credential.id

    -- `ResendVerificationCodeHandler.execute`
    unfoldable pub resend_verification_code : Handler W Resent
    resend_verification_code =
        ask (λ w. from_users (find_user_by_email sv.users r.email w)) >>= resend_owned

  module _ (email code : Text) (lang : Option Text) (now : ℕ) where
    abbrev pub use_token : User → Token → Handler W (Unit {0})
    use_token user t =
        let used = mark_as_used now user.uuid email lang t in
        store (sv.tokens.persist used.0) >>= λ _saved. emit (used.1 ∷ [])

    abbrev pub verify_with : User → Option Token → Handler W (Unit {0})
    verify_with user none = fail invalid_verification_code
    verify_with user (some t) =
        refuse_if (not (text_eq t.code_hash (sv.hash_code (sv.to_upper code))))
          invalid_verification_code
        >> use_token user t

    -- An account that a repository answers with has an id; the first clause is never reached.
    abbrev pub verify_for : User → Option ℕ → Handler W (Unit {0})
    verify_for user none = fail invalid_verification_code
    verify_for user (some id) =
        ask (sv.tokens.find_active_by_credential_account_id id now) >>= verify_with user

    abbrev pub verify_owned : Option Owned → Handler W (Unit {0})
    verify_owned none = fail invalid_verification_code
    verify_owned (some (user, credential)) =
        refuse_if (not (requires_email_verification credential)) user_already_verified
        >> verify_for user credential.id

    -- `VerifyEmailHandler.execute`
    unfoldable pub verify_email_code : Handler W (Unit {0})
    verify_email_code = ask (λ w. from_users (find_user_by_email sv.users email w)) >>= verify_owned
