-- ===== src/Saga/Engine/TwoPhase/Run.antt =====
-- A saga of two phases on the engine.
use stocka_server.Prelude.{
  ◌≡◌, refl, ap, ◌∙◌, inl, inr, true, Option, none, some, List, [], ◌∷◌, ◌++◌, All, All-append,
  Text,
}
use stocka_server.Shared.Outcome.{Outcome, ok, err, throw, Outcome-cases, resume}
use stocka_server.Saga.Retry.{Failure}
use stocka_server.Saga.Process.{ProcessState, States}
use stocka_server.Saga.Engine.{
  Step, Progress, Platform, is_transactional, save, execute_step, begin_before, commit_after,
  settle, run_step, run_steps, cleanup_process, finally, run,
}
use stocka_server.Saga.Engine.TwoPhase.{
  IsInert, IsInside, IsAfter, attempt, unless_failed, in_sequence, end_phase, two_phase,
}
use stocka_server.Saga.Engine.TwoPhase.Abort.{opened, closed, seen, fails}
use stocka_server.Saga.Engine.TwoPhase.Commit.{entered, stored, step_inside, committed}

module _ {W E : Type 0} (platform : Platform W E) where
  -- Between two steps of the transaction nothing is committed.
  next_inside :
      (step next : Step W E) (rest : List (Step W E)) (w : W) (states : States)
      (state : ProcessState) (done : List (Step W E))
      → is_transactional step ≡ true
      → is_transactional next ≡ true
      → commit_after platform step (next ∷ rest) (opened platform w states state done)
        ≡ (ok tt, opened platform w states state done)
  unfolding commit_after
  next_inside step next rest w states state done h k = rw h (rw k refl)

  next_step :
      (step : Step W E) (rest : List (Step W E)) (w : W) (states : States) (state : ProcessState)
      (done : List (Step W E))
      → is_transactional step ≡ true
      → seen platform (run_steps platform (step ∷ rest) (opened platform w states state done))
        ≡ seen platform (
            resume
              (λ _. run_steps platform rest)
              (settle platform step rest (attempt platform (execute_step platform step) w).0 (
                opened platform
                  (attempt platform (execute_step platform step) w).1
                  (stored platform step states state true)
                  (entered platform step state true)
                  done)))
  unfolding run_steps
  next_step step rest w states state done h =
      ap (λ p. seen platform (resume (λ _. run_steps platform rest) p))
        (step_inside platform step rest w states state done h)

  -- From a step of the transaction that has run, with what it threw, to the end of the saga.
  settled_inside :
      (step : Step W E) (inside after : List (Step W E)) (e : Option (Failure E)) (w : W)
      (states : States) (state : ProcessState) (done : List (Step W E))
      → IsInside step
      → All IsInside inside
      → All IsAfter after
      → All IsInert done
      → seen platform (
          resume
            (λ _. run_steps platform (inside ++ after))
            (settle platform step (inside ++ after) e (opened platform w states state done)))
        ≡ end_phase platform after (unless_failed platform (in_sequence platform inside) (e, w))
  unfolding in_sequence
  settled_inside step inside after (some e) w states state done i is a d =
      fails platform step e (run_steps platform (inside ++ after)) w states state done d
  settled_inside step [] after none w states state done i is a d =
      committed platform step after w states state (done ++ step ∷ []) i.inside a
  settled_inside step (t ∷ ts) after none w states state done i (j, js) a d =
      ap (λ p. seen platform (resume (λ _. run_steps platform (t ∷ (ts ++ after))) p))
        (next_inside step t (ts ++ after) w states state (done ++ step ∷ []) i.inside j.inside)
      ∙ next_step t (ts ++ after) w states state (done ++ step ∷ []) j.inside
      ∙ settled_inside t ts after (attempt platform (execute_step platform t) w).0 _ _ _ _ j js a
          (All-append IsInert done (step ∷ []) d (i.inert, tt))

  seen-save :
      (t : Outcome (Failure E) (Unit {0}) × Progress W E) (change : ProcessState → ProcessState)
      → seen platform (resume (λ _. save platform change) t) ≡ seen platform t
  seen-save (ok a, p) change = refl
  seen-save (err e, p) change = refl
  seen-save (throw e, p) change = refl

  finally-seen :
      (id : Text) (t : Outcome (Failure E) (Unit {0}) × Progress W E)
      → ((finally platform id t).0, (finally platform id t).1) ≡ seen platform t
  unfolding cleanup_process
  finally-seen id (r, p) = refl

  -- The first step of the transaction begins it.
  first_step :
      (step : Step W E) (inside after : List (Step W E)) (w : W) (states : States)
      (state : ProcessState)
      → IsInside step
      → All IsInside inside
      → All IsAfter after
      → seen platform
          (run_steps platform (step ∷ (inside ++ after)) (closed platform w states state []))
        ≡ two_phase platform (step ∷ inside) after w
  unfolding run_steps run_step begin_before two_phase in_sequence
  first_step step inside after w states state i is a =
      elim (Outcome-cases (platform.uow.begin w).0) [
        | inl (_, e) ↦ rw i.inside (
            rw e (
              settled_inside step inside after
                (attempt platform (execute_step platform step) (platform.uow.begin w).1).0 _ _ _ _ i
                is a tt))
        | inr (inl (_, e)) ↦ rw i.inside (
            rw e (
              settled_inside step inside after
                (attempt platform (execute_step platform step) (platform.uow.begin w).1).0 _ _ _ _ i
                is a tt))
        | inr (inr (_, e)) ↦ rw i.inside (rw e refl)
      ]

  -- A saga whose steps compensate nothing, some in a transaction and then some after it, runs as that:
  -- the transaction begins, its steps run up to the first that throws, and it is committed if none
  -- does and else rolled back; after the commit every step of the rest runs, whatever the others
  -- throw, and the saga ends well.
  pub run-two_phase :
      (id correlation_id : Text) (step : Step W E) (inside after : List (Step W E)) (w : W)
      (states : States)
      → IsInside step
      → All IsInside inside
      → All IsAfter after
      → let t = run platform id correlation_id (step ∷ (inside ++ after)) w states in
        (t.0, t.1) ≡ two_phase platform (step ∷ inside) after w
  unfolding run
  run-two_phase id correlation_id step inside after w states i is a =
      finally-seen id _ ∙ seen-save _ _ ∙ first_step step inside after w _ _ i is a
