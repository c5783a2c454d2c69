-- ===== src/Saga/Engine/TwoPhase/Commit.antt =====
-- A transaction of a saga that is committed, and the steps after it.
use stocka_server.Prelude.{
  ◌≡◌, refl, ap, ◌∙◌, inl, inr, Bool, true, false, Option, none, some, List, [], ◌∷◌, ◌++◌,
  if◌then◌else◌, All,
}
use stocka_server.Shared.Outcome.{Outcome, ok, Outcome-cases, resume}
use stocka_server.Saga.Retry.{Failure}
use stocka_server.Saga.Process
use stocka_server.Saga.Process.{ProcessState, States}
use stocka_server.Saga.Engine.{
  Step, Progress, Platform, is_transactional, is_transactional_step, execute_step, begin_before,
  commit_after, on_failure, settle, run_step, run_steps, run,
}
use stocka_server.Saga.Engine.TwoPhase.{IsAfter, attempt, best_effort, after_commit}
use stocka_server.Saga.Engine.TwoPhase.Abort.{opened, closed, seen, compensate_step_inert}

module _ {W E : Type 0} (platform : Platform W E) where
  -- The state of the process once a step was entered.
  abbrev pub entered : Step W E → ProcessState → Bool → ProcessState
  entered step state is_open =
      Process.transition platform.now step.name
        (if is_open then Process.processing else Process.post_processing) state

  abbrev pub stored : Step W E → States → ProcessState → Bool → States
  stored step states state is_open = Process.persist (entered step state is_open) states

  pub step_inside :
      (step : Step W E) (rest : List (Step W E)) (w : W) (states : States) (state : ProcessState)
      (done : List (Step W E))
      → is_transactional step ≡ true
      → run_step platform step rest (opened platform w states state done)
        ≡ settle platform step rest (attempt platform (execute_step platform step) w).0 (
            opened platform
              (attempt platform (execute_step platform step) w).1
              (stored step states state true)
              (entered step state true)
              done)
  unfolding run_step begin_before
  step_inside step rest w states state done h = rw h refl

  pub step_outside :
      (step : Step W E) (rest : List (Step W E)) (w : W) (states : States) (state : ProcessState)
      (done : List (Step W E))
      → is_transactional step ≡ false
      → run_step platform step rest (closed platform w states state done)
        ≡ settle platform step rest (attempt platform (execute_step platform step) w).0 (
            closed platform
              (attempt platform (execute_step platform step) w).1
              (stored step states state false)
              (entered step state false)
              done)
  unfolding run_step begin_before
  step_outside step rest w states state done h = rw h refl

  -- How a step after the commit ends, whatever it threw.
  pub settled_outside :
      (step : Step W E) (rest : List (Step W E)) (e : Option (Failure E)) (w : W) (states : States)
      (state : ProcessState) (done : List (Step W E))
      → IsAfter step
      → (done' : List (Step W E)) × (settle platform step rest e
            (closed platform w states state done)
          ≡ (ok tt, closed platform w states state done'))
  unfolding commit_after on_failure
  settled_outside step rest none w states state done i = (done ++ step ∷ [], rw i.outside refl)
  settled_outside step rest (some e) w states state done i =
      (done, compensate_step_inert platform step (closed platform w states state done) i.inert)

  -- The steps after the commit.
  pub run_rest :
      (steps : List (Step W E)) (w : W) (states : States) (state : ProcessState)
      (done : List (Step W E))
      → All IsAfter steps
      → (p : Progress W E) × (run_steps platform steps (closed platform w states state done)
          ≡ (ok tt, p))
        × (p.world ≡ best_effort platform steps w)
        × (p.has_open_transaction ≡ false)
  unfolding run_steps best_effort
  run_rest [] w states state done i = (closed platform w states state done, refl, refl, refl)
  run_rest (step ∷ steps) w states state done (i, is) =
      let t = attempt platform (execute_step platform step) w in
      let states' = stored step states state false in
      let state' = entered step state false in
      let (done', h) = settled_outside step steps t.0 t.1 states' state' done i in
      let (p, k, world, none_open) = run_rest steps t.1 states' state' done' is in
      (
        p,
        ap (resume (λ _. run_steps platform steps))
              (step_outside step steps w states state done i.outside ∙ h)
            ∙ k,
        world,
        none_open,
      )

  pub none_inside :
      (steps : List (Step W E)) → All IsAfter steps → is_transactional_step steps ≡ false
  none_inside [] i = refl
  none_inside (step ∷ steps) (i, is) = i.outside

  pub seen_closed :
      (r : Outcome (Failure E) (Unit {0})) (p : Progress W E)
      → p.has_open_transaction ≡ false
      → seen platform (r, p) ≡ (r, p.world)
  seen_closed r p h = ap (λ b. (r, if b then (platform.uow.rollback p.world).1 else p.world)) h

  -- After the last step of the transaction.
  pub committed :
      (step : Step W E) (after : List (Step W E)) (w : W) (states : States) (state : ProcessState)
      (done : List (Step W E))
      → is_transactional step ≡ true
      → All IsAfter after
      → seen platform (
          resume
            (λ _. run_steps platform after)
            (commit_after platform step after (opened platform w states state done)))
        ≡ after_commit platform after (attempt platform platform.uow.commit w)
  unfolding commit_after
  committed step after w states state done h i =
      let (p, run, world, none_open) =
        run_rest after (platform.uow.commit w).1 states state done i in
      let ends =
        ap (seen platform) run ∙ seen_closed (ok tt) p none_open ∙ ap (λ w. (ok tt, w)) world in
      elim (Outcome-cases (platform.uow.commit w).0) [
        | inl (a, e) ↦ rw h (rw (none_inside after i) (rw e ends))
        | inr (inl (a, e)) ↦ rw h (rw (none_inside after i) (rw e ends))
        | inr (inr (a, e)) ↦ rw h (rw (none_inside after i) (rw e refl))
      ]
