-- ===== src/Tenants/Handlers/Acceptance.antt =====
-- That joining a tenant is all or nothing, but for the mark on the invitation.
use stocka_server.Prelude.{ℕ, ◌≡◌, refl, sym, subst, ◌⊎◌, inl, inr, Text}
use stocka_server.Shared.Outcome.{Outcome, ok, throw, Outcome-cases}
use stocka_server.Users.Facade.{User}
use stocka_server.Tenants.Invitation.{TenantError, Invitation, Member}
use stocka_server.Tenants.Handlers.{TenantServices, rethrown, after_commit, join_tenant}
use stocka_server.Tenants.Handlers.Invited.{IsInvited}

module _ {W R : Type 0} (sv : TenantServices W) (now : ℕ) (rows saved : W → R)
    (marked : Text → R → R) where
  -- A unit of work that isolates: `rows` are the rows that its connection sees, `saved` those that a
  -- rollback would bring back. The repository of members writes through it. That of invitations does
  -- not: where `mark_accepted` writes, a rollback keeps what it wrote.
  pub record IsTransactional : Type 0 where
    pub begin_keeps : (w : W) → rows (sv.begin w).1 ≡ rows w
    pub begin_saves : (w : W) → saved (sv.begin w).1 ≡ rows w
    pub commit-saved : (w : W) → ¬ ((sv.commit w).0 ≡ ok tt) → saved (sv.commit w).1 ≡ saved w
    pub rollback_restores : (w : W) → rows (sv.rollback w).1 ≡ saved w
    pub persist-saved : (m : Member) (w : W) → saved (sv.persist_member m w).1 ≡ saved w
    pub mark-saved :
        (id : Text) (w : W)
        → (saved (sv.mark_accepted now id w).1 ≡ saved w)
          ⊎ (saved (sv.mark_accepted now id w).1 ≡ marked id (saved w))

  module _ (k : IsTransactional) where
    -- An exception, and rows of which `P` holds.
    abbrev Fails : (R → Type 0) → Outcome TenantError (Unit {0}) × W → Type 0
    Fails P t = ((e : TenantError) × (t.0 ≡ throw e)) × P (rows t.1)

    module _ (P : R → Type 0) where
      undone : (e : TenantError) (w : W) → P (saved w) → Fails P (rethrown sv e (sv.rollback w))
      undone e w h =
          let p : P (rows (sv.rollback w).1) = subst P (sym (k.rollback_restores w)) h in
          elim (Outcome-cases (sv.rollback w).0) [
            | inl (_, r) ↦ rw r ((e, refl), p)
            | inr (inl (e', r)) ↦ rw r ((e', refl), p)
            | inr (inr (e', r)) ↦ rw r ((e', refl), p)
          ]

      committed :
          (w : W)
          → P (saved w)
          → (after_commit sv (sv.commit w) ≡ (ok tt, (sv.commit w).1))
            ⊎ Fails P (after_commit sv (sv.commit w))
      committed w h =
          let p : ¬ ((sv.commit w).0 ≡ ok tt) → P (saved (sv.commit w).1) =
            λ failed. subst P (sym (k.commit-saved w failed)) h in
          elim (Outcome-cases (sv.commit w).0) [
            | inl (_, c) ↦ rw c (inl refl)
            | inr (inl (e, c)) ↦ rw c (inr (undone e _ (p λ l. cc (c, l))))
            | inr (inr (e, c)) ↦ rw c (inr (undone e _ (p λ l. cc (c, l))))
          ]

    -- The rows of before, or those with the invitation marked as accepted and nothing else.
    abbrev AtMostMarked : W → Invitation → R → Type 0
    AtMostMarked w i r = (r ≡ rows w) ⊎ (r ≡ marked i.id (rows w))

    module _ (token user_email user_uuid : Text) where
      -- The user has joined the tenant of an invitation for this email, which is marked as accepted.
      pub record Accepts (w : W) (t : Outcome TenantError Invitation × W) : Type 0 where
        pub invitation : Invitation
        pub user : User
        pub invited : IsInvited sv now token user_email user_uuid w invitation user
        pub answer : t.0 ≡ ok invitation
        pub joined : (join_tenant sv now user_uuid invitation user (sv.begin w).1).0 ≡ ok tt
        pub committed :
            t.1 ≡ (sv.commit (join_tenant sv now user_uuid invitation user (sv.begin w).1).1).1

      -- The user has not joined, and the invitation is marked as accepted all the same.
      pub record Strands (w : W) (t : Outcome TenantError Invitation × W) : Type 0 where
        pub invitation : Invitation
        pub user : User
        pub invited : IsInvited sv now token user_email user_uuid w invitation user
        pub failed : (e : TenantError) × (t.0 ≡ throw e)
        pub only_marked : rows t.1 ≡ marked invitation.id (rows w)
