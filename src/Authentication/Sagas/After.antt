-- ===== src/Authentication/Sagas/After.antt =====
-- What holds after a step of a saga, or after a saga, that has not thrown. A step answers with no
-- `err`: it returns or it throws.
use stocka_server.Prelude.{◌≡◌, refl, ◌⊎◌, inl, inr, Option, none, some, List, [], ◌∷◌, Text}
use stocka_server.Shared.Outcome.{Outcome, ok, err, throw, Outcome-cases}
use stocka_server.Saga.Retry.{Failure}
use stocka_server.Saga.Engine.{Step, Platform, execute_step}
use stocka_server.Saga.Engine.TwoPhase.{
  attempt, unless_failed, in_sequence, best_effort, end_phase, two_phase,
}
use stocka_server.Authentication.Services.{AuthError}
use stocka_server.Authentication.Sessions.{World, StepTask, step_of}

module _ {S E : Type 0} where
  abbrev pub After : {A : Type 0} → (A → S → Type 0) → Outcome E A × S → Type 0
  After Q (ok a, s) = Q a s
  After Q (err _, s) = ⊥
  After Q (throw _, s) = Unit

module _ {C W : Type 0} where
  abbrev pub Finished : (World C W → Type 0) → Option (Failure AuthError) × World C W → Type 0
  Finished Q (none, p) = Q p
  Finished Q (some e, p) = Unit

  abbrev pub Succeeded :
      (World C W → Type 0) → Outcome (Failure AuthError) (Unit {0}) × World C W → Type 0
  Succeeded Q (ok _, p) = Q p
  Succeeded Q (err _, p) = Unit
  Succeeded Q (throw _, p) = Unit

  -- A saga that ends well or as `U` says, and leaves `R` if it ends well.
  pub ends_well_or :
      (R : World C W → Type 0) (U : Outcome (Failure AuthError) (Unit {0}) × World C W → Type 0)
      (t : Outcome (Failure AuthError) (Unit {0}) × World C W)
      → (t.0 ≡ ok tt) ⊎ U t
      → Succeeded R t
      → ((t.0 ≡ ok tt) × R t.1) ⊎ U t
  ends_well_or R U (ok _, q) h r = inl (refl, r)
  ends_well_or R U (err e, q) (inl h) r = cc
  ends_well_or R U (err e, q) (inr h) r = inr h
  ends_well_or R U (throw e, q) (inl h) r = cc
  ends_well_or R U (throw e, q) (inr h) r = inr h

  module _ (platform : Platform (World C W) AuthError) where
    Finished-next :
        (Q R : World C W → Type 0) (steps : List (Step (World C W) AuthError))
        (t : Outcome (Failure AuthError) (Unit {0}) × World C W)
        → After (λ _. Q) t
        → ((p : World C W) → Q p → Finished R (in_sequence platform steps p))
        → Finished R
            (unless_failed platform (in_sequence platform steps) (attempt platform (λ _. t) t.1))
    Finished-next Q R steps (ok a, p) h k = k p h
    Finished-next Q R steps (err e, p) h k = absurd h
    Finished-next Q R steps (throw e, p) h k = tt

    pub Finished-step :
        (Q R : World C W → Type 0) (step : Step (World C W) AuthError)
        (steps : List (Step (World C W) AuthError)) (p : World C W)
        → After (λ _. Q) (execute_step platform step p)
        → ((p : World C W) → Q p → Finished R (in_sequence platform steps p))
        → Finished R (in_sequence platform (step ∷ steps) p)
    unfolding in_sequence
    Finished-step Q R step steps p h k = Finished-next Q R steps (execute_step platform step p) h k

    Succeeded-end :
        (Q R : World C W → Type 0) (after : List (Step (World C W) AuthError))
        (t : Option (Failure AuthError) × World C W)
        → Finished Q t
        → ((p : World C W) → Q p → R (best_effort platform after (platform.uow.commit p).1))
        → Succeeded R (end_phase platform after t)
    Succeeded-end Q R after (none, p) h k = elim (Outcome-cases (platform.uow.commit p).0) [
      | inl (a, e) ↦ rw e (k p h)
      | inr (inl (a, e)) ↦ rw e (k p h)
      | inr (inr (a, e)) ↦ rw e tt
    ]
    Succeeded-end Q R after (some e, p) h k = elim (Outcome-cases (platform.uow.rollback p).0) [
      | inl (a, e) ↦ rw e tt
      | inr (inl (a, e)) ↦ rw e tt
      | inr (inr (a, e)) ↦ rw e tt
    ]

    -- What holds after a saga of two phases that ended well: the transaction finished, the commit did
    -- too, and the rest was run.
    pub Succeeded-two_phase :
        (Q R : World C W → Type 0) (inside after : List (Step (World C W) AuthError))
        (p : World C W)
        → Finished Q (in_sequence platform inside (platform.uow.begin p).1)
        → ((p : World C W) → Q p → R (best_effort platform after (platform.uow.commit p).1))
        → Succeeded R (two_phase platform inside after p)
    unfolding two_phase
    Succeeded-two_phase Q R inside after p h k =
        let rest =
          Succeeded-end Q R after (in_sequence platform inside (platform.uow.begin p).1) h k in
        elim (Outcome-cases (platform.uow.begin p).0) [
          | inl (a, e) ↦ rw e rest
          | inr (inl (a, e)) ↦ rw e rest
          | inr (inr (a, e)) ↦ rw e tt
        ]

    -- The same for a step of this context.
    pub Finished-task :
        (Q R : World C W → Type 0) (name : Text) (task : StepTask C W)
        (steps : List (Step (World C W) AuthError)) (p : World C W)
        → After (λ _. Q) (task p)
        → ((p : World C W) → Q p → Finished R (in_sequence platform steps p))
        → Finished R (in_sequence platform (step_of name task none ∷ steps) p)
    unfolding execute_step
    Finished-task Q R name task steps p h k = Finished-step Q R (step_of name task none) steps p h k

    pub Finished-last :
        (R : World C W → Type 0) (name : Text) (task : StepTask C W) (p : World C W)
        → After (λ _. R) (task p)
        → Finished R (in_sequence platform (step_of name task none ∷ []) p)
    unfolding in_sequence
    Finished-last R name task p h = Finished-task R R name task [] p h (λ p r. r)
