-- ===== src/Onboarding/Session/Progress.antt =====
-- What `saveProgress` does to a session.
use stocka_server.Prelude.{
  ℕ, ◌≤◌, ◌≡◌, refl, ap, ◌∙◌, false, Bool-cases, inl, inr, Option, none, some, [], ◌∷◌, arith, Text,
  codes, ltb, leb, text_eq, text_eq_refl, eq_of_text_eq, if◌then◌else◌,
}
use stocka_server.Shared.Outcome.{Outcome, ok, err, throw, and_then}
use stocka_server.Onboarding.Session.{
  Value, Object, lookup, assign, Number, whole, between, negative, OnboardingError, Session,
  code_of, save_path, save_step, save_progress,
}

module _ {A : Type 0} where
  pub lookup-assign : (key : Text) (a : A) (o : Object A) → lookup key (assign key a o) ≡ some a
  unfolding lookup assign
  lookup-assign key a [] = rw (text_eq_refl key)
  lookup-assign key a ((k, b) ∷ o) = elim (Bool-cases (text_eq k key)) [
    | inl e ↦ rw e (rw e)
    | inr e ↦ rw e (rw e (lookup-assign key a o))
  ]

  pub lookup-assign_other :
      (key other : Text) (a : A) (o : Object A)
      → text_eq key other ≡ false
      → lookup other (assign key a o) ≡ lookup other o
  unfolding lookup assign
  lookup-assign_other key other a [] h = rw h
  lookup-assign_other key other a ((k, b) ∷ o) h = elim (Bool-cases (text_eq k key)) [
    | inl e ↦ rw e (rw (ap (λ k. text_eq k other) (eq_of_text_eq k key e)) (rw h))
    | inr e ↦
        rw e (ap (λ r. if text_eq k other then some b else r) (lookup-assign_other key other a o h))
  ]

-- What `save_path` and `save_step` leave of a session.
pub record Continues (s t : Session) : Type 0 where
  pub same_data : t.step_data ≡ s.step_data
  pub forward : s.current_step ≤ t.current_step
  pub same_status : t.status ≡ s.status
  pub same_user : t.user_uuid ≡ s.user_uuid
  pub same_id : t.id ≡ s.id
  pub same_creation : t.created_at ≡ s.created_at

-- The session `t` is `s` with the answers of one section saved.
pub record Advances (section : Text) (answers : Object Value) (s t : Session) : Type 0 where
  pub saved : lookup section t.step_data ≡ some answers
  pub others :
      (other : Text)
      → text_eq section other ≡ false
      → lookup other t.step_data ≡ lookup other s.step_data
  pub forward : s.current_step ≤ t.current_step
  pub same_status : t.status ≡ s.status
  pub same_user : t.user_uuid ≡ s.user_uuid
  pub same_id : t.id ≡ s.id
  pub same_creation : t.created_at ≡ s.created_at

-- A property of the value, if there is one.
abbrev pub Returns : {A : Type 0} → (A → Type 0) → Outcome OnboardingError A → Type 0
Returns P (ok a) = P a
Returns P (err _) = Unit
Returns P (throw _) = Unit

Returns-and_then :
    {A B : Type 0} (P : A → Type 0) (Q : B → Type 0) (f : A → Outcome OnboardingError B)
    (r : Outcome OnboardingError A)
    → Returns P r
    → ((a : A) → P a → Returns Q (f a))
    → Returns Q (and_then r f)
Returns-and_then P Q f (ok a) h k = k a h
Returns-and_then P Q f (err _) h k = tt
Returns-and_then P Q f (throw _) h k = tt

Continues-refl : (s : Session) → Continues s s
Continues-refl s = record {
  same_data = refl;
  forward = omega arith;
  same_status = refl;
  same_user = refl;
  same_id = refl;
  same_creation = refl;
}

save_path-Continues :
    (section : Text) (answers : Object Value) (s : Session)
    → Returns (Continues s) (save_path section answers s)
save_path-Continues section answers s = elim (Bool-cases (text_eq section (codes "path"))) [
  | inl e ↦ rw e (
      Returns-and_then (λ _. Unit {0}) (Continues s) _
        (code_of (lookup (codes "invitationCode") answers)) (anything _)
        (λ code _. record {
          same_data = refl;
          forward = omega arith;
          same_status = refl;
          same_user = refl;
          same_id = refl;
          same_creation = refl;
        }))
  | inr e ↦ rw e (Continues-refl s)
]
  where
    anything : {A : Type 0} (r : Outcome OnboardingError A) → Returns (λ _. Unit {0}) r
    anything (ok _) = tt
    anything (err _) = tt
    anything (throw _) = tt

save_step-Continues :
    (step : Option Number) (s : Session) → Returns (Continues s) (save_step step s)
save_step-Continues none s = Continues-refl s
save_step-Continues (some (whole n)) s = elim (Bool-cases (ltb s.current_step n)) [
  | inl e ↦ rw e (record {
    same_data = refl;
    forward = ground arith;
    same_status = refl;
    same_user = refl;
    same_id = refl;
    same_creation = refl;
  })
  | inr e ↦ rw e (Continues-refl s)
]
save_step-Continues (some (between n)) s = elim (Bool-cases (leb s.current_step n)) [
  | inl e ↦ rw e tt
  | inr e ↦ rw e (Continues-refl s)
]
save_step-Continues (some negative) s = Continues-refl s

-- If `saveProgress` does not throw, then the session has the answers of the section that was saved, those
-- of every other section as before, a current step that is not lower, and the same id, user,
-- status and date of creation.
pub save_progress-Advances :
    (section : Text) (answers : Object Value) (step : Option Number) (now : ℕ) (s : Session)
    → Returns (Advances section answers s) (save_progress section answers step now s)
unfolding save_progress
save_progress-Advances section answers step now s =
    let s' : Session = record s { step_data = assign section answers s.step_data } in
    Returns-and_then (Continues s') (Advances section answers s) _ (save_path section answers s')
      (save_path-Continues section answers s')
      (λ p c.
        Returns-and_then (Continues p) (Advances section answers s) _ (save_step step p)
          (save_step-Continues step p)
          (λ q d. record {
            saved =
                ap (lookup section) (d.same_data ∙ c.same_data)
                ∙ lookup-assign section answers s.step_data;
            others = λ other h.
                ap (lookup other) (d.same_data ∙ c.same_data)
                ∙ lookup-assign_other section other answers s.step_data h;
            forward = omega (arith, c.forward, d.forward);
            same_status = d.same_status ∙ c.same_status;
            same_user = d.same_user ∙ c.same_user;
            same_id = d.same_id ∙ c.same_id;
            same_creation = d.same_creation ∙ c.same_creation;
          }))
