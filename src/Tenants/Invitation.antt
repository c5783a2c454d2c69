-- ===== src/Tenants/Invitation.antt =====
-- Invitations and members: src/bounded-contexts/tenant/domain/models/tenant-invitation.model.ts and
-- tenant-member.model.ts, with their value objects.
use stocka_server.Prelude.{
  ℕ, Bool, false, not, ◌||◌, Option, none, some, is_some, List, [], ◌∷◌, if◌then◌else◌, ltb, length,
  Text, codes, text_eq,
}
use stocka_server.Shared.Outcome.{Outcome, ok, throw, and_then}
use stocka_server.Users.Email.{create_email}

pub data TenantError : Type 0 where
  invitation_not_found invitation_already_used invitation_expired : TenantError
  invitation_email_mismatch member_already_exists : TenantError
  insufficient_permissions invitation_already_pending : TenantError
  invalid_role invalid_email invalid_tenant_name invalid_invitation_token invalid_uuid :
      Text → TenantError
  missing_user : TenantError  -- `userAggregate!` of none
  database_error : ℕ → TenantError

-- `Object.values(MemberRoleEnum)`
abbrev pub member_roles : List Text
member_roles =
    codes "OWNER"
    ∷ codes "PARTNER"
    ∷ codes "MANAGER"
    ∷ codes "BUYER"
    ∷ codes "WAREHOUSE_KEEPER"
    ∷ codes "SALES_REP"
    ∷ codes "VIEWER"
    ∷ []

-- `includes`
unfoldable pub includes : List Text → Text → Bool
includes [] value = false
includes (t ∷ ts) value = text_eq t value || includes ts value

-- `MemberRoleVO.fromString`
unfoldable pub create_role : Text → Outcome TenantError Text
unfolding includes
create_role value = if includes member_roles value then ok value else throw (invalid_role value)

-- The checks of `TenantNameVO` and `InvitationTokenVO`
abbrev pub bounded : ℕ → (Text → TenantError) → Text → Outcome TenantError Text
bounded max invalid value =
    if not (ltb 0 (length value)) || ltb max (length value) then throw (invalid value) else ok value

-- `TenantInvitationReconstituteProps`, also the invitation itself, whose email and texts are checked.
pub record Invitation : Type 0 where
  pub id : Text
  pub tenant_id : ℕ
  pub tenant_uuid : Text
  pub tenant_name : Text
  pub invited_by : ℕ
  pub email : Text
  pub role : Text
  pub token : Text
  pub accepted_at : Option ℕ
  pub expires_at : ℕ
  pub created_at : ℕ

module _ (to_lower : Text → Text) where
  -- `TenantInvitationModel.reconstitute`
  unfoldable pub reconstitute_invitation : Invitation → Outcome TenantError Invitation
  reconstitute_invitation props =
      and_then (create_email to_lower invalid_email props.email) λ email.
        and_then (create_role props.role) λ role.
          and_then (bounded 100 invalid_tenant_name props.tenant_name) λ tenant_name.
            and_then (bounded 255 invalid_invitation_token props.token) λ token. ok (record props {
              email = email;
              role = role;
              tenant_name = tenant_name;
              token = token;
            })

  -- `emailMatches`
  abbrev pub email_matches : Invitation → Text → Bool
  email_matches i email = text_eq (to_lower i.email) (to_lower email)

-- `isExpired`
abbrev pub is_expired : ℕ → Invitation → Bool
is_expired now i = ltb i.expires_at now

-- `isAlreadyAccepted`
abbrev pub is_already_accepted : Invitation → Bool
is_already_accepted i = is_some i.accepted_at

-- `TenantMemberModel`, as it is created: active, by nobody's invitation.
pub record Member : Type 0 where
  pub tenant_id : ℕ
  pub user_id : ℕ
  pub user_uuid : Text
  pub role : Text
  pub status : Text
  pub invited_by : Option ℕ
  pub joined_at : Option ℕ

-- `TenantMemberModel.create`; `is_uuid` is the check of the package uuid.
unfoldable pub create_member : (Text → Bool) → ℕ → ℕ → ℕ → Text → Text → Outcome TenantError Member
create_member is_uuid now tenant_id user_id user_uuid role =
    if not (is_uuid user_uuid)
    then throw (invalid_uuid user_uuid)
    else and_then (create_role role) λ role. ok (record {
      tenant_id = tenant_id;
      user_id = user_id;
      user_uuid = user_uuid;
      role = role;
      status = codes "active";
      invited_by = none;
      joined_at = some now;
    })
