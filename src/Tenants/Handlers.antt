-- ===== src/Tenants/Handlers.antt =====
-- The handlers of accept-invitation, invite-member and cancel-invitation
-- (src/bounded-contexts/tenant/application/commands) and of get-invitation-by-token
-- (application/queries there).
pub mod Invited
pub mod Acceptance
pub mod Once
use stocka_server.Prelude.{
  ℕ, ◌+◌, ◌*◌, ◌==◌, Bool, true, false, not, Option, none, some, is_some, List, if◌then◌else◌, Text,
}
use stocka_server.Shared.Outcome.{
  Outcome, ok, err, throw, and_then, Act, ◌>>=◌, ◌>>◌, fail, lift, refuse_if,
}
use stocka_server.Users.Facade.{User}
use stocka_server.Tenants.Invitation.{
  TenantError, invitation_not_found, invitation_already_used, invitation_expired,
  invitation_email_mismatch, member_already_exists, insufficient_permissions,
  invitation_already_pending, missing_user, includes, Invitation, email_matches, is_expired,
  is_already_accepted, Member, create_member,
}

-- The repositories, the tables of roles, the facade of the user context and the unit of work.
pub record TenantServices (W : Type 0) : Type 0 where
  pub find_by_token : Text → W → Outcome TenantError (Option Invitation)
  pub find_by_id : Text → W → Outcome TenantError (Option Invitation)
  pub find_pending_by_email : ℕ → ℕ → Text → W → Outcome TenantError (Option Invitation)
  pub create_invitation : Invitation → Act W TenantError Invitation
  pub mark_accepted : ℕ → Text → Act W TenantError (Unit {0})
  pub cancel : Text → Act W TenantError (Unit {0})
  pub find_active_by_user_uuid : Text → W → Outcome TenantError (Option Member)
  pub persist_member : Member → Act W TenantError (Unit {0})
  pub get_assignable_roles : Text → W → Outcome TenantError (List Text)
  pub find_user : Text → W → Outcome TenantError (Option User)
  pub begin : Act W TenantError (Unit {0})
  pub commit : Act W TenantError (Unit {0})
  pub rollback : Act W TenantError (Unit {0})
  pub to_lower : Text → Text
  pub is_uuid : Text → Bool

module _ {W : Type 0} (sv : TenantServices W) where
  -- After a rollback because of `e`.
  abbrev pub rethrown :
      TenantError → Outcome TenantError (Unit {0}) × W → Outcome TenantError (Unit {0}) × W
  rethrown e (ok _, w) = (throw e, w)
  rethrown e (err e', w) = (throw e', w)
  rethrown e (throw e', w) = (throw e', w)

  abbrev pub after_commit : Outcome TenantError (Unit {0}) × W → Outcome TenantError (Unit {0}) × W
  after_commit (ok _, w) = (ok tt, w)
  after_commit (err e, w) = rethrown e (sv.rollback w)
  after_commit (throw e, w) = rethrown e (sv.rollback w)

  abbrev pub after_work : Outcome TenantError (Unit {0}) × W → Outcome TenantError (Unit {0}) × W
  after_work (ok _, w) = after_commit (sv.commit w)
  after_work (err e, w) = rethrown e (sv.rollback w)
  after_work (throw e, w) = rethrown e (sv.rollback w)

  abbrev pub after_begin :
      Act W TenantError (Unit {0})
      → Outcome TenantError (Unit {0}) × W
      → Outcome TenantError (Unit {0}) × W
  after_begin work (ok _, w) = after_work (work w)
  after_begin work (err e, w) = (throw e, w)
  after_begin work (throw e, w) = (throw e, w)

  -- `uow.execute(work)`
  unfoldable pub in_transaction : Act W TenantError (Unit {0}) → Act W TenantError (Unit {0})
  in_transaction work w = after_begin work (sv.begin w)

  -- `existingMember && existingMember.tenantId === invitation.tenantId`
  abbrev pub is_member_of : ℕ → Option Member → Bool
  is_member_of tenant_id none = false
  is_member_of tenant_id (some m) = m.tenant_id == tenant_id

  abbrev pub user_or_throw : Option User → Outcome TenantError User
  user_or_throw none = throw missing_user
  user_or_throw (some user) = ok user

  module _ (now : ℕ) where
    -- The query of an invitation that can still be used.
    abbrev pub usable_invitation : Option Invitation → Outcome TenantError Invitation
    usable_invitation none = err invitation_not_found
    usable_invitation (some i) =
        if is_already_accepted i
        then err invitation_already_used
        else if is_expired now i
        then err invitation_expired
        else ok i

    -- `GetInvitationByTokenHandler.execute`
    unfoldable pub get_invitation_by_token : Text → W → Outcome TenantError Invitation
    get_invitation_by_token token w = and_then (sv.find_by_token token w) usable_invitation

    -- The checks of accept-invitation.
    unfoldable pub check_acceptance :
        Text → Text → Text → W → Outcome TenantError (Invitation × User)
    check_acceptance token user_email user_uuid w =
        and_then (and_then (sv.find_by_token token w) usable_invitation) λ i.
          if not (email_matches sv.to_lower i user_email)
          then err invitation_email_mismatch
          else and_then (sv.find_active_by_user_uuid user_uuid w) λ member.
            if is_member_of i.tenant_id member
            then err member_already_exists
            else and_then (sv.find_user user_uuid w)
                λ row. and_then (user_or_throw row) λ user. ok (i, user)

    -- The transaction of accept-invitation.
    abbrev pub join_tenant : Text → Invitation → User → Act W TenantError (Unit {0})
    join_tenant user_uuid i user = do
      member ← lift (create_member sv.is_uuid now i.tenant_id user.id user_uuid i.role)
      sv.persist_member member
      sv.mark_accepted now i.id

    abbrev pub accept_checked :
        Text → Outcome TenantError (Invitation × User) → Act W TenantError Invitation
    accept_checked user_uuid (ok (i, user)) =
        in_transaction (join_tenant user_uuid i user) >>= λ _. lift (ok i)
    accept_checked user_uuid (err e) = lift (err e)
    accept_checked user_uuid (throw e) = lift (throw e)

    -- `AcceptInvitationHandler.execute`; the answer shows the tenant and the role of the invitation.
    unfoldable pub accept_invitation : Text → Text → Text → Act W TenantError Invitation
    accept_invitation token user_email user_uuid w =
        accept_checked user_uuid (check_acceptance token user_email user_uuid w) w

    -- `RoleHierarchyService.canAssignRole`
    unfoldable pub can_assign_role : Text → Text → W → Outcome TenantError Bool
    can_assign_role inviter_role target_role w =
        and_then (sv.get_assignable_roles inviter_role w) λ roles. ok (includes roles target_role)

    -- `INVITATION_TTL_HOURS`, in milliseconds
    abbrev pub invitation_ttl : ℕ
    invitation_ttl = 72 * 60 * 60 * 1000

    -- `InviteMemberHandler.execute`: the command's tenant, inviter, email and role are those of `draft`,
    -- and its token is the one that was generated; the repository fills in the id and the date of creation.
    unfoldable pub invite_member : Text → Invitation → Act W TenantError Invitation
    invite_member inviter_role draft = do
      can_assign ← (λ w. (can_assign_role inviter_role draft.role w, w))
      refuse_if (not can_assign) insufficient_permissions
      pending ← (λ w. (sv.find_pending_by_email now draft.tenant_id draft.email w, w))
      refuse_if (is_some pending) invitation_already_pending
      sv.create_invitation (record draft { expires_at = now + invitation_ttl; accepted_at = none })

    abbrev pub cancel_found : Text → ℕ → Option Invitation → Act W TenantError (Unit {0})
    cancel_found id tenant_id none = fail invitation_not_found
    cancel_found id tenant_id (some i) =
        if not (i.tenant_id == tenant_id)
        then fail invitation_not_found
        else if is_already_accepted i
        then fail invitation_already_used
        else sv.cancel id

    -- `CancelInvitationHandler.execute`
    unfoldable pub cancel_invitation : Text → ℕ → Act W TenantError (Unit {0})
    cancel_invitation id tenant_id = (λ w. (sv.find_by_id id w, w)) >>= cancel_found id tenant_id
