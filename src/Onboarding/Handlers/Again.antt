-- ===== src/Onboarding/Handlers/Again.antt =====
-- Starting the onboarding of a user twice.
use stocka_server.Prelude.{
  ℕ, ◌≡◌, refl, ap, subst, Bool, false, Bool-cases, inl, inr, Option, none, some, Text,
}
use stocka_server.Shared.Outcome.{Outcome, ok, err, throw}
use stocka_server.Onboarding.Session.{
  OnboardingError, Session, create_session, status_is_completed, is_completed,
}
use stocka_server.Onboarding.Handlers.{SessionContract, start_found, start_onboarding}

-- A repository that finds what it saved, under the user of the session, with the status it had.
pub record IsFaithful {W : Type 0} (contract : SessionContract W) : Type 0 where
  pub finds :
      (s t : Session) (w w' : W)
      → contract.save s w ≡ (ok t, w')
      → contract.find_by_user_uuid s.user_uuid w' ≡ ok (some t)
  pub keeps_status :
      (s t : Session) (w w' : W) → contract.save s w ≡ (ok t, w') → t.status ≡ s.status

module _ {W : Type 0} (contract : SessionContract W) (faithful : IsFaithful contract)
    (is_uuid : Text → Bool) where
  start_found_open :
      (now : ℕ) (user : Text) (w : W) (s : Session)
      → contract.find_by_user_uuid user w ≡ ok (some s)
      → is_completed s ≡ false
      → start_onboarding contract is_uuid now user w ≡ (ok s, w)
  unfolding start_onboarding
  start_found_open now user w s f o = rw f (rw o)

  started :
      (now later : ℕ) (user : Text) (w w' : W) (s : Session)
      (r : Outcome OnboardingError (Option Session))
      → contract.find_by_user_uuid user w ≡ r
      → start_found contract is_uuid now user r w ≡ (ok s, w')
      → start_onboarding contract is_uuid later user w' ≡ (ok s, w')
  started now later user w w' s (ok none) f h = elim (Bool-cases (is_uuid user)) [
    | inl e ↦
        let saved : contract.save (create_session user now) w ≡ (ok s, w') = rw e at h in
        start_found_open later user w' s (faithful.finds (create_session user now) s w w' saved)
          (ap status_is_completed (faithful.keeps_status (create_session user now) s w w' saved))
    | inr e ↦ cc
  ]
  started now later user w w' s (ok (some t)) f h = elim (Bool-cases (is_completed t)) [
    | inl e ↦ cc
    | inr e ↦
        let same : (ok t, w) ≡ (ok s, w') = cc in
        subst (λ p. start_onboarding contract is_uuid later user p.1 ≡ p) same
          (start_found_open later user w t f e)
  ]
  started now later user w w' s (err e) f h = cc
  started now later user w w' s (throw e) f h = cc

  -- With a repository that finds what it saved: once the onboarding of a user was started, starting it again
  -- later answers the same session and changes nothing.
  pub start_onboarding_again :
      (now later : ℕ) (user : Text) (w w' : W) (s : Session)
      → start_onboarding contract is_uuid now user w ≡ (ok s, w')
      → start_onboarding contract is_uuid later user w' ≡ (ok s, w')
  unfolding start_onboarding
  start_onboarding_again now later user w w' s h =
      started now later user w w' s (contract.find_by_user_uuid user w) refl h
