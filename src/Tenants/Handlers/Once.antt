-- ===== src/Tenants/Handlers/Once.antt =====
-- The invitation that accept-invitation leaves behind: it is not accepted a second time.
use stocka_server.Prelude.{ℕ, ◌≡◌, refl, ap, ◌∙◌, inl, inr, some, Text}
use stocka_server.Shared.Outcome.{ok, err, throw, Outcome-cases, Act}
use stocka_server.Users.Facade.{User}
use stocka_server.Tenants.Invitation.{
  TenantError, invitation_already_used, Invitation, Member, create_member,
}
use stocka_server.Tenants.Handlers.{
  TenantServices, rethrown, after_commit, in_transaction, check_acceptance, join_tenant,
  accept_checked, accept_invitation,
}
use stocka_server.Tenants.Handlers.Invited.{IsInvited, check_acceptance-IsInvited}

module _ {W : Type 0} (sv : TenantServices W) (now : ℕ) where
  -- The table of invitations: an update of the column `accepted_at` is seen by the next query, and
  -- neither the transaction nor the table of members has a say in it.
  pub record Remembers : Type 0 where
    pub marks :
        (token : Text) (i : Invitation) (w w' : W)
        → sv.find_by_token token w ≡ ok (some i)
        → sv.mark_accepted now i.id w ≡ (ok tt, w')
        → sv.find_by_token token w' ≡ ok (some (record i { accepted_at = some now }))
    pub apart_begin :
        (token : Text) (w : W) → sv.find_by_token token (sv.begin w).1 ≡ sv.find_by_token token w
    pub apart_commit :
        (token : Text) (w : W) → sv.find_by_token token (sv.commit w).1 ≡ sv.find_by_token token w
    pub apart_persist :
        (token : Text) (m : Member) (w : W)
        → sv.find_by_token token (sv.persist_member m w).1 ≡ sv.find_by_token token w

  -- After a rollback there is an exception.
  rethrown-throw :
      (e : TenantError) (w : W)
      → (e' : TenantError) × ((rethrown sv e (sv.rollback w)).0 ≡ throw e')
  rethrown-throw e w = elim (Outcome-cases (sv.rollback w).0) [
    | inl (_, r) ↦ rw r (e, refl)
    | inr (inl (e', r)) ↦ rw r (e', refl)
    | inr (inr (e', r)) ↦ rw r (e', refl)
  ]

  after_commit-eq-ok :
      (w : W)
      → (after_commit sv (sv.commit w)).0 ≡ ok tt
      → (after_commit sv (sv.commit w)).1 ≡ (sv.commit w).1
  after_commit-eq-ok w h = elim (Outcome-cases (sv.commit w).0) [
    | inl (_, c) ↦ rw c refl
    | inr (inl (e, c)) ↦ cc (rw c at h, (rethrown-throw e (sv.commit w).1).1)
    | inr (inr (e, c)) ↦ cc (rw c at h, (rethrown-throw e (sv.commit w).1).1)
  ]

  -- A transaction that ends well has done its work and committed it.
  in_transaction-eq-ok :
      (work : Act W TenantError (Unit {0})) (w : W)
      → (in_transaction sv work w).0 ≡ ok tt
      → ((work (sv.begin w).1).0 ≡ ok tt)
        × ((in_transaction sv work w).1 ≡ (sv.commit (work (sv.begin w).1).1).1)
  unfolding in_transaction
  in_transaction-eq-ok work w h =
      let w' = (sv.begin w).1 in
      elim (Outcome-cases (sv.begin w).0) [
        | inl (_, b) ↦ elim (Outcome-cases (work w').0) [
          | inl (_, o) ↦ rw b (rw o (refl, after_commit-eq-ok (work w').1 (rw o at (rw b at h))))
          | inr (inl (e, o)) ↦ cc (rw o at (rw b at h), (rethrown-throw e (work w').1).1)
          | inr (inr (e, o)) ↦ cc (rw o at (rw b at h), (rethrown-throw e (work w').1).1)
        ]
        | inr (inl (e, b)) ↦ cc (rw b at h)
        | inr (inr (e, b)) ↦ cc (rw b at h)
      ]

  module _ (k : Remembers) (token : Text) where
    -- The invitation, once it was used.
    abbrev IsUsed : Invitation → W → Type 0
    IsUsed i w = sv.find_by_token token w ≡ ok (some (record i { accepted_at = some now }))

    join_tenant-IsUsed :
        (user_uuid : Text) (i : Invitation) (user : User) (w : W)
        → sv.find_by_token token w ≡ ok (some i)
        → (join_tenant sv now user_uuid i user w).0 ≡ ok tt
        → IsUsed i (join_tenant sv now user_uuid i user w).1
    join_tenant-IsUsed user_uuid i user w f h =
        elim (Outcome-cases (create_member sv.is_uuid now i.tenant_id user.id user_uuid i.role)) [
          | inl (m, c) ↦ elim (Outcome-cases (sv.persist_member m w).0) [
            | inl (_, p) ↦
                let w' = (sv.persist_member m w).1 in
                let done = rw p at (rw c at h) in
                rw c (
                  rw p (
                    k.marks token i w' _ (k.apart_persist token m w ∙ f)
                      (ap (λ r. (r, (sv.mark_accepted now i.id w').1)) done)))
            | inr (inl (_, p)) ↦ cc (rw p at (rw c at h))
            | inr (inr (_, p)) ↦ cc (rw p at (rw c at h))
          ]
          | inr (inl (_, c)) ↦ cc (rw c at h)
          | inr (inr (_, c)) ↦ cc (rw c at h)
        ]

    module _ (user_email user_uuid : Text) where
      accept_checked-IsUsed :
          (w : W) (i j : Invitation) (user : User)
          → IsInvited sv now token user_email user_uuid w i user
          → (accept_checked sv now user_uuid (ok (i, user)) w).0 ≡ ok j
          → IsUsed i (accept_checked sv now user_uuid (ok (i, user)) w).1
      accept_checked-IsUsed w i j user v h =
          let work = join_tenant sv now user_uuid i user in
          elim (Outcome-cases (in_transaction sv work w).0) [
            | inl (_, t) ↦
                let (joined, committed) = in_transaction-eq-ok work w t in
                rw t (
                  rw committed (
                    k.apart_commit token (work (sv.begin w).1).1
                    ∙ join_tenant-IsUsed user_uuid i user (sv.begin w).1
                        (k.apart_begin token w ∙ v.found) joined))
            | inr (inl (_, t)) ↦ cc (rw t at h)
            | inr (inr (_, t)) ↦ cc (rw t at h)
          ]

      accept_invitation-IsUsed :
          (w : W) (j : Invitation)
          → (accept_invitation sv now token user_email user_uuid w).0 ≡ ok j
          → (i : Invitation) × IsUsed i (accept_invitation sv now token user_email user_uuid w).1
      unfolding accept_invitation
      accept_invitation-IsUsed w j h =
          elim (Outcome-cases (check_acceptance sv now token user_email user_uuid w)) [
            | inl ((i, user), c) ↦ (
              i,
              rw c (
                  accept_checked-IsUsed w i j user
                    (check_acceptance-IsInvited sv now token user_email user_uuid w i user c)
                    (rw c at h)),
            )
            | inr (inl (_, c)) ↦ cc (rw c at h)
            | inr (inr (_, c)) ↦ cc (rw c at h)
          ]

    used_refused :
        (later : ℕ) (email uuid : Text) (i : Invitation) (w : W)
        → IsUsed i w
        → accept_invitation sv later token email uuid w ≡ (err invitation_already_used, w)
    unfolding accept_invitation check_acceptance
    used_refused later email uuid i w u = rw u refl

    -- Once an invitation was accepted, accepting its token again is refused as already used, whoever
    -- asks and whenever, and changes nothing.
    pub accept_invitation_once :
        (user_email user_uuid : Text) (j : Invitation) (later : ℕ) (email uuid : Text) (w : W)
        → (accept_invitation sv now token user_email user_uuid w).0 ≡ ok j
        → let w' = (accept_invitation sv now token user_email user_uuid w).1 in
          accept_invitation sv later token email uuid w' ≡ (err invitation_already_used, w')
    accept_invitation_once user_email user_uuid j later email uuid w h =
        let (i, u) = accept_invitation-IsUsed user_email user_uuid w j h in
        used_refused later email uuid i _ u
