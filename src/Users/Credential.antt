-- ===== src/Users/Credential.antt =====
-- `CredentialAccountModel` (src/bounded-contexts/user/account/domain/models/credential-account.model.ts),
-- its value objects and its mapper. A value object is the text that it wraps; the constructor's
-- check of a uuid belongs to the package `uuid` and is a parameter, as lower case is.
pub mod Valid
pub mod RoundTrip
use stocka_server.Prelude.{
  ℕ, Bool, true, false, not, ◌||◌, Option, none, some, is_some, List, [], ◌∷◌, if◌then◌else◌, ltb,
  Text, codes, text_eq, trim, length,
}
use stocka_server.Shared.Outcome.{Outcome, ok, throw, and_then}
use stocka_server.Users.Email.{create_email}

pub data UserError : Type 0 where
  invalid_email : Text → UserError
  empty_password_hash : UserError
  invalid_status : Text → UserError
  empty_provider long_provider : UserError
  invalid_provider : Text → UserError
  invalid_uuid : Text → UserError
  credential_not_found : ℕ → UserError
  account_not_found : ℕ → UserError
  missing_row : UserError
  database_error : ℕ → UserError

-- `AccountStatusEnum`
pub data AccountStatus : Type 0 where
  pending_verification active email_verified_by_provider blocked archived : AccountStatus

-- `AccountStatusVO.toString`
abbrev pub status_text : AccountStatus → Text
status_text pending_verification = codes "pending_verification"
status_text active = codes "active"
status_text email_verified_by_provider = codes "email_verified_by_provider"
status_text blocked = codes "blocked"
status_text archived = codes "archived"

-- The status of that text, out of those listed.
abbrev pub find_status : Text → List AccountStatus → Outcome UserError AccountStatus
find_status value [] = throw (invalid_status value)
find_status value (s ∷ statuses) =
    if text_eq (status_text s) value then ok s else find_status value statuses

-- `new AccountStatusVO(value)`
unfoldable pub create_status : Text → Outcome UserError AccountStatus
create_status value =
    find_status value
      (pending_verification ∷ active ∷ email_verified_by_provider ∷ blocked ∷ archived ∷ [])

abbrev pub is_pending : AccountStatus → Bool
is_pending pending_verification = true
is_pending active = false
is_pending email_verified_by_provider = false
is_pending blocked = false
is_pending archived = false

abbrev pub status_can_access : AccountStatus → Bool
status_can_access pending_verification = false
status_can_access active = true
status_can_access email_verified_by_provider = true
status_can_access blocked = false
status_can_access archived = false

abbrev pub is_provider : Text → Bool
is_provider value =
    text_eq value (codes "email")
    || text_eq value (codes "google")
    || text_eq value (codes "facebook")
    || text_eq value (codes "microsoft")
    || text_eq value (codes "apple")

abbrev pub check_provider : Text → Outcome UserError Text
check_provider [] = throw empty_provider
check_provider (c ∷ s) =
    if ltb 30 (length (c ∷ s))
    then throw long_provider
    else if is_provider (c ∷ s)
    then ok (c ∷ s)
    else throw (invalid_provider (c ∷ s))

-- `CreatedWithProviderVO.create`
unfoldable pub create_provider : Text → Outcome UserError Text
create_provider value = check_provider (trim value)

abbrev pub is_empty : Text → Bool
is_empty [] = true
is_empty (_ ∷ _) = false

-- `new PasswordHashVO(value)`
abbrev pub create_hash : Text → Outcome UserError Text
create_hash value = if is_empty (trim value) then throw empty_password_hash else ok value

-- `props.passwordHash ? new PasswordHashVO(props.passwordHash) : null`
unfoldable pub create_optional_hash : Option Text → Outcome UserError (Option Text)
create_optional_hash none = ok none
create_optional_hash (some []) = ok none
create_optional_hash (some (c ∷ s)) = and_then (create_hash (c ∷ s)) λ hash. ok (some hash)

pub record Credential : Type 0 where
  pub id : Option ℕ
  pub uuid : Text
  pub account_id : ℕ
  pub email : Text
  pub password_hash : Option Text
  pub status : AccountStatus
  pub email_verified_at : Option ℕ
  pub verification_blocked_until : Option ℕ
  pub created_with : Text
  pub created_at : ℕ
  pub updated_at : ℕ
  pub archived_at : Option ℕ

-- `Partial<CredentialAccountEntity>` as the mapper makes it: a row without its dates, and perhaps without
-- an id.
pub record Entity : Type 0 where
  pub id : Option ℕ
  pub uuid : Text
  pub account_id : ℕ
  pub email : Text
  pub password_hash : Option Text
  pub status : Text
  pub email_verified_at : Option ℕ
  pub verification_blocked_until : Option ℕ
  pub created_with : Text
  pub archived_at : Option ℕ

-- `CredentialAccountCtorProps`; also a row of the table, `CredentialAccountEntity`.
pub record Props : Type 0 where
  pub id : Option ℕ
  pub uuid : Text
  pub account_id : ℕ
  pub email : Text
  pub password_hash : Option Text
  pub status : Text
  pub email_verified_at : Option ℕ
  pub verification_blocked_until : Option ℕ
  pub created_with : Text
  pub created_at : ℕ
  pub updated_at : ℕ
  pub archived_at : Option ℕ

module _ (validate : Text → Bool) (to_lower : Text → Text) where
  -- The constructor.
  unfoldable pub construct : Props → Outcome UserError Credential
  construct p =
      if not (validate p.uuid)
      then throw (invalid_uuid p.uuid)
      else and_then (create_email to_lower invalid_email p.email) λ email.
        and_then (create_optional_hash p.password_hash) λ password_hash.
          and_then (create_status p.status) λ status.
            and_then (create_provider p.created_with) λ created_with. ok (record {
              id = p.id;
              uuid = p.uuid;
              account_id = p.account_id;
              email = email;
              password_hash = password_hash;
              status = status;
              email_verified_at = p.email_verified_at;
              verification_blocked_until = p.verification_blocked_until;
              created_with = created_with;
              created_at = p.created_at;
              updated_at = p.updated_at;
              archived_at = p.archived_at;
            })

  -- `create`; `uuid` is the one that `new UUIDVO(undefined)` generates.
  unfoldable pub create_credential :
      ℕ → Text → ℕ → Text → Option Text → Text → Outcome UserError Credential
  unfolding construct
  create_credential now uuid account_id email password_hash created_with = construct (record {
    id = none;
    uuid = uuid;
    account_id = account_id;
    email = email;
    password_hash = password_hash;
    status = status_text pending_verification;
    email_verified_at = none;
    verification_blocked_until = none;
    created_with = created_with;
    created_at = now;
    updated_at = now;
    archived_at = none;
  })

  -- `createFromSocial`
  unfoldable pub create_from_social : ℕ → Text → ℕ → Text → Text → Outcome UserError Credential
  unfolding construct
  create_from_social now uuid account_id email provider = construct (record {
    id = none;
    uuid = uuid;
    account_id = account_id;
    email = email;
    password_hash = none;
    status = status_text email_verified_by_provider;
    email_verified_at = some now;
    verification_blocked_until = none;
    created_with = provider;
    created_at = now;
    updated_at = now;
    archived_at = none;
  })

  -- `CredentialAccountMapper.toDomain`, by `reconstitute`.
  unfoldable pub to_domain : Props → Outcome UserError Credential
  unfolding construct
  to_domain entity = construct entity

  -- `CredentialAccountMapper.toEntity`: the entity has the model's id if the model has one, else none.
  unfoldable pub to_entity : Credential → Entity
  to_entity c = record {
    id = c.id;
    uuid = c.uuid;
    account_id = c.account_id;
    email = to_lower c.email;
    password_hash = c.password_hash;
    status = status_text c.status;
    email_verified_at = c.email_verified_at;
    verification_blocked_until = c.verification_blocked_until;
    created_with = c.created_with;
    archived_at = c.archived_at;
  }

-- `hasPassword`
abbrev pub has_password : Credential → Bool
has_password c = is_some c.password_hash

-- `isEmailVerified`
abbrev pub is_email_verified : Credential → Bool
is_email_verified c = is_some c.email_verified_at

-- `isPendingVerification` and `requiresEmailVerification`
abbrev pub requires_email_verification : Credential → Bool
requires_email_verification c = is_pending c.status

-- `canAccessApplication`
abbrev pub can_access_application : Credential → Bool
can_access_application c = status_can_access c.status

unfoldable pub verify_email : ℕ → Credential → Credential
verify_email now c = record c {
  status = active;
  email_verified_at = some now;
  verification_blocked_until = none;
  updated_at = now;
}

unfoldable pub block_verification : ℕ → ℕ → Credential → Credential
block_verification now until c = record c {
  verification_blocked_until = some until;
  updated_at = now;
}

unfoldable pub unblock_verification : ℕ → Credential → Credential
unblock_verification now c = record c { verification_blocked_until = none; updated_at = now }

unfoldable pub update_password_hash : ℕ → Text → Credential → Outcome UserError Credential
update_password_hash now hash c =
    and_then (create_hash hash)
      λ hash. ok (record c { password_hash = some hash; updated_at = now })

-- A call of one of the methods, with the reading of the clock.
pub data Method : Type 0 where
  call_verify_email : ℕ → Method
  call_block_verification : ℕ → ℕ → Method
  call_unblock_verification : ℕ → Method
  call_update_password_hash : ℕ → Text → Method

unfoldable pub call : Method → Credential → Outcome UserError Credential
call (call_verify_email now) c = ok (verify_email now c)
call (call_block_verification now until) c = ok (block_verification now until c)
call (call_unblock_verification now) c = ok (unblock_verification now c)
call (call_update_password_hash now hash) c = update_password_hash now hash c

unfoldable pub call_all : List Method → Credential → Outcome UserError Credential
call_all [] c = ok c
call_all (m ∷ ms) c = and_then (call m c) (call_all ms)
