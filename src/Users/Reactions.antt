-- ===== src/Users/Reactions.antt =====
-- The handlers of the user context for events of the authentication context
-- (src/bounded-contexts/user/application/event-handlers). What they log is left out.
use stocka_server.Prelude.{ℕ, Option, none, some, Text}
use stocka_server.Shared.Outcome.{Outcome, ok, Act, ◌>>=◌, pure}
use stocka_server.Users.Credential.{UserError}
use stocka_server.Users.Facade.{
  UserContracts, Owned, find_user_by_uuid_with_credential, verify_email, block_verification,
  update_password_hash,
}

module _ {W : Type 0} (k : UserContracts W) (now : ℕ) where
  -- `try { await call } catch (error) { warn }`
  abbrev pub swallow : Outcome UserError (Unit {0}) × W → Outcome UserError (Unit {0}) × W
  swallow (_, w) = (ok tt, w)

  abbrev pub attempt : Act W UserError (Unit {0}) → Act W UserError (Unit {0})
  attempt call w = swallow (call w)

  abbrev pub with_id : (ℕ → Act W UserError (Unit {0})) → Option ℕ → Act W UserError (Unit {0})
  with_id call none = pure tt
  with_id call (some id) = attempt (call id)

  abbrev pub with_credential :
      (ℕ → Act W UserError (Unit {0})) → Option Owned → Act W UserError (Unit {0})
  with_credential call none = pure tt
  with_credential call (some (user, credential)) = with_id call credential.id

  -- The shape of the two handlers that are given the uuid of a user.
  abbrev pub react : Text → (ℕ → Act W UserError (Unit {0})) → Act W UserError (Unit {0})
  react user_uuid call =
      (λ w. (find_user_by_uuid_with_credential k user_uuid w, w)) >>= with_credential call

  -- `VerifyUserEmailOnVerificationCompletedHandler.handle`
  unfoldable pub on_email_verification_completed : Text → Act W UserError (Unit {0})
  on_email_verification_completed user_uuid = react user_uuid (verify_email k now)

  -- `BlockVerificationOnRateLimitHandler.handle`
  unfoldable pub on_verification_blocked : Text → ℕ → Act W UserError (Unit {0})
  on_verification_blocked user_uuid until =
      react user_uuid (λ id. block_verification k now id until)

  -- `UpdatePasswordOnResetHandler.handle`
  unfoldable pub on_password_reset : ℕ → Text → Act W UserError (Unit {0})
  on_password_reset credential_id hash = attempt (update_password_hash k now credential_id hash)
