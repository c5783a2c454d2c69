-- ===== src/Users/Facade.antt =====
-- `UserFacade` (src/bounded-contexts/user/infrastructure/facade/user.facade.ts), as far as it is about
-- accounts. The repositories behind the contracts are parameters; `W` is the database. Where the
-- source asserts that a row is there (`account!`), the model throws the `TypeError` that follows.
use stocka_server.Prelude.{ℕ, Bool, Option, none, some, is_some, Text}
use stocka_server.Shared.Outcome.{Outcome, ok, throw, and_then, Act, ◌>>=◌, lift, pure}
use stocka_server.Users.Credential
use stocka_server.Users.Credential.{UserError, credential_not_found, missing_row, Credential}

-- `UserAggregate` and `AccountAggregate`, of which the other fields are never read here.
pub record User : Type 0 where
  pub id : ℕ
  pub uuid : Text
  pub archived_at : Option ℕ

pub record Account : Type 0 where
  pub id : ℕ
  pub user_id : ℕ

abbrev pub Find : Type 0 → Type 0 → Type 0
Find W A = W → Outcome UserError (Option A)

pub record UserContracts (W : Type 0) : Type 0 where
  pub find_user_by_uuid : Text → Find W User
  pub find_user_by_id : ℕ → Find W User
  pub find_account_by_id : ℕ → Find W Account
  pub find_account_by_user_id : ℕ → Find W Account
  pub find_credential_by_id : ℕ → Find W Credential
  pub find_credential_by_account_id : ℕ → Find W Credential
  pub find_credential_by_email : Text → Find W Credential
  pub find_credential_by_email_or_username : Text → Find W Credential
  pub persist_credential : Credential → Act W UserError Credential

-- `{ user, credential }`
abbrev pub Owned : Type 0
Owned = User × Credential

module _ {W : Type 0} (k : UserContracts W) where
  -- `row!`
  abbrev pub assert_row : {A : Type 0} → Option A → Outcome UserError A
  assert_row none = throw missing_row
  assert_row (some a) = ok a

  abbrev pub present :
      {A B : Type 0} → (A → Outcome UserError (Option B)) → Option A → Outcome UserError (Option B)
  present f none = ok none
  present f (some a) = f a

  abbrev pub owner_of : W → Credential → Outcome UserError (Option Owned)
  owner_of w credential = and_then (k.find_account_by_id credential.account_id w) λ row.
      and_then (assert_row row) λ account.
        and_then (k.find_user_by_id account.user_id w)
          λ row. and_then (assert_row row) λ user. ok (some (user, credential))

  abbrev pub credential_of : W → User → Outcome UserError (Option Owned)
  credential_of w user = and_then (k.find_account_by_user_id user.id w) λ row.
      and_then (assert_row row) λ account.
        and_then (k.find_credential_by_account_id account.id w)
          λ row. and_then (assert_row row) λ credential. ok (some (user, credential))

  unfoldable pub find_user_by_email : Text → Find W Owned
  find_user_by_email email w = and_then (k.find_credential_by_email email w) (present (owner_of w))

  unfoldable pub find_user_by_email_or_username : Text → Find W Owned
  find_user_by_email_or_username identifier w =
      and_then (k.find_credential_by_email_or_username identifier w) (present (owner_of w))

  unfoldable pub find_user_by_uuid_with_credential : Text → Find W Owned
  find_user_by_uuid_with_credential uuid w =
      and_then (k.find_user_by_uuid uuid w) (present (credential_of w))

  abbrev pub user_of : W → Account → Outcome UserError (Option User)
  user_of w account = k.find_user_by_id account.user_id w

  unfoldable pub find_by_account_id : ℕ → Find W User
  find_by_account_id account_id w =
      and_then (k.find_account_by_id account_id w) (present (user_of w))

  unfoldable pub exists_by_email : Text → W → Outcome UserError Bool
  exists_by_email email w = and_then (k.find_credential_by_email email w) λ row. ok (is_some row)

  -- Reads a credential account by its id.
  abbrev pub get_credential : ℕ → Act W UserError (Option Credential)
  get_credential id w = (k.find_credential_by_id id w, w)

  abbrev pub credential_or_throw : ℕ → Option Credential → Act W UserError Credential
  credential_or_throw id none = lift (throw (credential_not_found id))
  credential_or_throw id (some c) = pure c

  unfoldable pub verify_email : ℕ → ℕ → Act W UserError (Unit {0})
  verify_email now id = do
    row ← get_credential id
    credential ← credential_or_throw id row
    _saved ← k.persist_credential (Credential.verify_email now credential)
    pure tt

  abbrev pub block_found : ℕ → ℕ → Option Credential → Act W UserError (Unit {0})
  block_found now until none = pure tt
  block_found now until (some c) =
      k.persist_credential (Credential.block_verification now until c) >>= λ _saved. pure tt

  unfoldable pub block_verification : ℕ → ℕ → ℕ → Act W UserError (Unit {0})
  block_verification now id until = do row ← get_credential id; block_found now until row

  unfoldable pub update_password_hash : ℕ → ℕ → Text → Act W UserError (Unit {0})
  update_password_hash now id hash = do
    row ← get_credential id
    credential ← credential_or_throw id row
    changed ← lift (Credential.update_password_hash now hash credential)
    _saved ← k.persist_credential changed
    pure tt
