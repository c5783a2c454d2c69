-- ===== src/Authentication/Sagas/Atomic.antt =====
-- A saga of two phases that does not end well leaves no trace of its transaction.
use stocka_server.Prelude.{
  ℕ, ◌≡◌, refl, ◌∙◌, ◌⊎◌, inl, inr, Option, none, some, List, [], ◌∷◌, All, Text,
}
use stocka_server.Shared.Outcome.{Outcome, ok, throw, Outcome-cases}
use stocka_server.Saga.Retry.{Failure}
use stocka_server.Saga.Engine.{Step, Platform, execute_step}
use stocka_server.Saga.Engine.TwoPhase.{
  attempt, unless_failed, in_sequence, after_commit, after_rollback, end_phase, two_phase,
}
use stocka_server.Authentication.Services.{AuthError}
use stocka_server.Authentication.Sessions.{World}
use stocka_server.Authentication.Sagas.{Transaction, saga_platform, Isolates}

module _ {C W R : Type 0} (tx : Transaction W) (message : Failure AuthError → Text) (now : ℕ)
    (name : Text) (rows saved : W → R) (isolates : Isolates tx rows saved) where
  abbrev platform : Platform (World C W) AuthError
  platform = saga_platform tx message now name

  -- A step that touches neither what a rollback would bring back nor the event bus.
  pub record IsContained (step : Step (World C W) AuthError) : Type 0 where
    pub same_saved :
        (p : World C W) → saved (execute_step platform step p).1.server.db ≡ saved p.server.db
    pub same_published :
        (p : World C W) → (execute_step platform step p).1.server.published ≡ p.server.published

  -- A saga that has thrown, and left the rows and the events of before.
  abbrev pub Untouched : World C W → Outcome (Failure AuthError) (Unit {0}) × World C W → Type 0
  Untouched p t =
      ((e : Failure AuthError) × (t.0 ≡ throw e))
      × (rows t.1.server.db ≡ rows p.server.db)
      × (t.1.server.published ≡ p.server.published)

  -- During the transaction of a saga that began on `p`.
  abbrev During : World C W → World C W → Type 0
  During p q = (saved q.server.db ≡ rows p.server.db) × (q.server.published ≡ p.server.published)

  During-next :
      (p : World C W) (steps : List (Step (World C W) AuthError)) (e : Option (Failure AuthError))
      (q : World C W)
      → During p q
      → ((q : World C W) → During p q → During p (in_sequence platform steps q).1)
      → During p (unless_failed platform (in_sequence platform steps) (e, q)).1
  During-next p steps none q d k = k q d
  During-next p steps (some e) q d k = d

  in_sequence-During :
      (p : World C W) (steps : List (Step (World C W) AuthError))
      → All IsContained steps
      → (q : World C W) → During p q
      → During p (in_sequence platform steps q).1
  unfolding in_sequence
  in_sequence-During p [] c q d = d
  in_sequence-During p (step ∷ steps) (c, cs) q (d, d') =
      During-next p steps (attempt platform (execute_step platform step) q).0 _
        (c.same_saved q ∙ d, c.same_published q ∙ d') (in_sequence-During p steps cs)

  abbrev Ends : World C W → Outcome (Failure AuthError) (Unit {0}) × World C W → Type 0
  Ends p t = (t.0 ≡ ok tt) ⊎ Untouched p t

  -- After any number of rollbacks the rows are those that were saved.
  rolled_back :
      (p q : World C W) (e : Failure AuthError)
      → During p q
      → Ends p (after_rollback platform e (attempt platform platform.uow.rollback q))
  rolled_back p q e (d, d') =
      let restored =
        isolates.rollback_restores (tx.rollback q.server.db).1
        ∙ isolates.rollback-saved q.server.db
        ∙ d in
      elim (Outcome-cases (tx.rollback q.server.db).0) [
        | inl (_, h) ↦ rw h (inr ((_, refl), isolates.rollback_restores q.server.db ∙ d, d'))
        | inr (inl (_, h)) ↦ rw h (inr ((_, refl), restored, d'))
        | inr (inr (_, h)) ↦ rw h (inr ((_, refl), restored, d'))
      ]

  committed :
      (p q : World C W) (after : List (Step (World C W) AuthError))
      → During p q
      → Ends p (after_commit platform after (attempt platform platform.uow.commit q))
  committed p q after (d, d') =
      let undone : ¬ ((tx.commit q.server.db).0 ≡ ok tt)
          → rows (tx.rollback (tx.commit q.server.db).1).1 ≡ rows p.server.db =
        λ failed.
          isolates.rollback_restores (tx.commit q.server.db).1
          ∙ isolates.commit-saved q.server.db failed
          ∙ d in
      elim (Outcome-cases (tx.commit q.server.db).0) [
        | inl (_, h) ↦ rw h (inl refl)
        | inr (inl (_, h)) ↦ rw h (inr ((_, refl), undone (λ k. cc (h, k)), d'))
        | inr (inr (_, h)) ↦ rw h (inr ((_, refl), undone (λ k. cc (h, k)), d'))
      ]

  ended :
      (p : World C W) (after : List (Step (World C W) AuthError))
      (t : Option (Failure AuthError) × World C W)
      → During p t.1
      → Ends p (end_phase platform after t)
  ended p after (none, q) d = committed p q after d
  ended p after (some e, q) d = rolled_back p q e d

  -- A saga whose steps in the transaction are contained ends well or changes nothing.
  pub two_phase-Atomic :
      (inside after : List (Step (World C W) AuthError))
      → All IsContained inside
      → (p : World C W) → Ends p (two_phase platform inside after p)
  unfolding two_phase
  two_phase-Atomic inside after c p =
      let started = (record p { server = record p.server { db = (tx.begin p.server.db).1 } }) in
      let d : During p started = (isolates.begin_saves p.server.db, refl) in
      let rest =
        ended p after (in_sequence platform inside started)
          (in_sequence-During p inside c started d) in
      elim (Outcome-cases (tx.begin p.server.db).0) [
        | inl (_, h) ↦ rw h rest
        | inr (inl (_, h)) ↦ rw h (inr ((_, refl), isolates.begin_keeps p.server.db, refl))
        | inr (inr (_, h)) ↦ rw h (inr ((_, refl), isolates.begin_keeps p.server.db, refl))
      ]
