-- ===== src/Tenants/Handlers/Invited.antt =====
-- Whom accept-invitation lets join.
use stocka_server.Prelude.{
  ℕ, ◌≡◌, refl, ap, ◌∙◌, subst, inl, inr, true, false, Bool-cases, Option, none, some, Text,
  if◌then◌else◌,
}
use stocka_server.Shared.Outcome.{Outcome, ok, err, and_then, and_then-eq-ok, ok-injective}
use stocka_server.Users.Facade.{User}
use stocka_server.Tenants.Invitation.{
  TenantError, member_already_exists, Invitation, email_matches, is_expired, is_already_accepted,
  Member,
}
use stocka_server.Tenants.Handlers.{
  TenantServices, is_member_of, user_or_throw, usable_invitation, check_acceptance,
}

module _ {W : Type 0} (sv : TenantServices W) (now : ℕ) (token user_email user_uuid : Text) where
  -- The invitation is stored under the token, is neither used nor expired, is for this email, and the
  -- user, who exists, is not yet an active member of its tenant.
  pub record IsInvited (w : W) (i : Invitation) (user : User) : Type 0 where
    pub found : sv.find_by_token token w ≡ ok (some i)
    pub unused : is_already_accepted i ≡ false
    pub unexpired : is_expired now i ≡ false
    pub matches : email_matches sv.to_lower i user_email ≡ true
    pub no_member :
        (m : Option Member) × (sv.find_active_by_user_uuid user_uuid w ≡ ok m)
        × (is_member_of sv i.tenant_id m ≡ false)
    pub is_user : sv.find_user user_uuid w ≡ ok (some user)

  usable :
      (row : Option Invitation) (i : Invitation)
      → usable_invitation sv now row ≡ ok i
      → (row ≡ some i) × (is_already_accepted i ≡ false) × (is_expired now i ≡ false)
  usable none i h = cc
  usable (some r) i h = elim (Bool-cases (is_already_accepted r)) [
    | inl a ↦ cc (h, a)
    | inr a ↦ elim (Bool-cases (is_expired now r)) [
      | inl e ↦ cc (h, a, e)
      | inr e ↦
          let same : r ≡ i = ok-injective (rw e at (rw a at h)) in
          subst
            (λ i. (some r ≡ some i) × (is_already_accepted i ≡ false) × (is_expired now i ≡ false))
            same (refl, a, e)
    ]
  ]

  present : (row : Option User) (user : User) → user_or_throw sv row ≡ ok user → row ≡ some user
  present none user h = cc
  present (some u) user h = cc

  -- The rest of the checks, of an invitation that can be used.
  abbrev rest : W → Invitation → Outcome TenantError (Invitation × User)
  rest w i = and_then (sv.find_active_by_user_uuid user_uuid w) λ member.
      if is_member_of sv i.tenant_id member
      then err member_already_exists
      else and_then (sv.find_user user_uuid w)
          λ row. and_then (user_or_throw sv row) λ user. ok (i, user)

  invited :
      (w : W) (j i : Invitation) (user : User)
      → sv.find_by_token token w ≡ ok (some j)
      → is_already_accepted j ≡ false
      → is_expired now j ≡ false
      → email_matches sv.to_lower j user_email ≡ true
      → rest w j ≡ ok (i, user)
      → IsInvited w i user
  invited w j i user f a e m h =
      let (member, fm, h1) = and_then-eq-ok (sv.find_active_by_user_uuid user_uuid w) _ h in
      elim (Bool-cases (is_member_of sv j.tenant_id member)) [
        | inl y ↦ cc (rw y at h1)
        | inr n ↦
            let (row, fu, h2) = and_then-eq-ok (sv.find_user user_uuid w) _ (rw n at h1) in
            let (u, is_u, h3) = and_then-eq-ok (user_or_throw sv row) _ h2 in
            subst (λ r. IsInvited w r.0 r.1) (ok-injective h3)
              (record {
                found = f;
                unused = a;
                unexpired = e;
                matches = m;
                no_member = (member, fm, n);
                is_user = fu ∙ ap (λ row. ok row) (present row u is_u);
              })
      ]

  pub check_acceptance-IsInvited :
      (w : W) (i : Invitation) (user : User)
      → check_acceptance sv now token user_email user_uuid w ≡ ok (i, user)
      → IsInvited w i user
  unfolding check_acceptance
  check_acceptance-IsInvited w i user h =
      let (j, read, h1) =
        and_then-eq-ok (and_then (sv.find_by_token token w) (usable_invitation sv now)) _ h in
      let (row, found, h2) = and_then-eq-ok (sv.find_by_token token w) _ read in
      let (is_row, a, e) = usable row j h2 in
      elim (Bool-cases (email_matches sv.to_lower j user_email)) [
        | inl m ↦ invited w j i user (found ∙ ap (λ row. ok row) is_row) a e m (rw m at h1)
        | inr m ↦ cc (rw m at h1)
      ]
