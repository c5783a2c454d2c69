-- ===== src/Saga/Engine/Cleanup.antt =====
-- What every run of a saga leaves behind, whichever of its steps or transactions fail.
use stocka_server.Prelude.{
  IfSome, ◌≡◌, refl, Bool, true, false, not, ◌&&◌, Option, none, some, List, [], ◌∷◌, if◌then◌else◌,
  keep, reverse, is_some, All, All-append, All-keep, All-reverse, Text, Bool-cases, inl, inr,
}
use stocka_server.Shared.Outcome.{Outcome, throw, ◌>>=◌, ◌>>◌, lift, Outcome-cases}
use stocka_server.Shared.Rules.{Preserves, Preserves-bind}
use stocka_server.Saga.Retry.{Failure, RetryOptions}
use stocka_server.Saga.Process
use stocka_server.Saga.Process.{ProcessState, ProcessStatus, States, persist, delete}
use stocka_server.Saga.Engine.{
  Task, Step, Progress, Platform, Stage, is_transactional, is_transactional_step, caught, set_open,
  save, retried, execute_step, compensation, compensate_step, compensate_each, compensate_all,
  run_compensation, begin_before, commit_after, enter, push, on_failure, settle, run_step,
  run_steps, cleanup_process, finally, initiated, run,
}
use stocka_server.Saga.Engine.Invariant
use stocka_server.Saga.Engine.Invariant.{
  save-Keeps, move-Keeps, caught-Keeps, reset-Keeps, closing-Keeps, retried-Quiet, compensate_same,
  fail_process_same, complete_same, transition_same, opened, unopened, delete-persist, Discipline,
  IsQuietTask, IsQuiet,
}

module _ {W E : Type 0} (platform : Platform W E) (is_open : W → Bool) (id : Text)
    (states : States) where
  abbrev Fine : Progress W E → Type 0
  Fine = Invariant.Fine platform is_open id states

  abbrev Keeps : {A : Type 0} → Stage platform A → Type 0
  Keeps m = Preserves Fine m

  module _ (d : Discipline platform is_open) where
    compensation-Keeps :
        (retry : Option RetryOptions) (task : Option (Task W E))
        → IfSome (IsQuietTask is_open) task
        → Keeps (compensation platform retry task)
    compensation-Keeps retry none q p h = h
    compensation-Keeps retry (some task) q p h =
        caught-Keeps platform is_open id states (retried platform retry task)
          (retried-Quiet platform is_open id states d retry task q) p h

    compensate_each-Keeps :
        (steps : List (Step W E))
        → All (IsQuiet is_open) steps
        → Keeps (compensate_each platform steps)
    unfolding compensate_step
    compensate_each-Keeps [] q p h = h
    compensate_each-Keeps (step ∷ steps) (q, qs) p h =
        Preserves-bind Fine (compensation platform step.compensation_retry step.compensate) _
          (compensation-Keeps step.compensation_retry step.compensate q.compensate)
          (λ _. compensate_each-Keeps steps qs) p h

    compensate_all-Keeps :
        (message : Text) (steps : List (Step W E))
        → All (IsQuiet is_open) steps
        → Keeps (compensate_all platform message steps)
    compensate_all-Keeps message [] q p h = h
    compensate_all-Keeps message (step ∷ steps) q p h =
        Preserves-bind Fine (save platform (Process.compensate platform.now message))
          (λ _. compensate_each platform (step ∷ steps))
          (save-Keeps platform is_open id states (Process.compensate platform.now message)
            (compensate_same platform is_open id states message))
          (λ _. compensate_each-Keeps (step ∷ steps) q) p h

    run_compensation-Keeps : (message : Text) → Keeps (run_compensation platform message)
    unfolding run_compensation
    run_compensation-Keeps message p h =
        Preserves-bind Fine
          (compensate_all platform message
            (keep (λ s. is_some s.compensate) (reverse p.completed_steps)))
          _
          (compensate_all-Keeps message _ (
            All-keep (IsQuiet is_open) (λ s. is_some s.compensate) _
              (All-reverse (IsQuiet is_open) p.completed_steps h.quiet)))
          (λ _.
            save-Keeps platform is_open id states (Process.fail_process platform.now message)
              (fail_process_same platform is_open id states message))
          p h

    begin_before-Keeps : (step : Step W E) → Keeps (begin_before platform step)
    unfolding begin_before
    begin_before-Keeps step p h =
        elim (Bool-cases (is_transactional step && not p.has_open_transaction)) [
          | inl b ↦ elim (Outcome-cases (platform.uow.begin p.world).0) [
            | inl (a, e) ↦ rw (b, e) (opened platform is_open id states p _ h)
            | inr (inl (a, e)) ↦ rw (b, e) (opened platform is_open id states p _ h)
            | inr (inr (a, e)) ↦
                rw (b, e) (unopened platform is_open id states p _ h (d.begin_throws p.world a e))
          ]
          | inr b ↦ rw b h
        ]

    commit_after-Keeps :
        (step : Step W E) (rest : List (Step W E)) → Keeps (commit_after platform step rest)
    unfolding commit_after
    commit_after-Keeps step rest p h =
        elim (Bool-cases
          (is_transactional step && (p.has_open_transaction && not (is_transactional_step rest)))) [
            | inl b ↦ rw b (
                closing-Keeps platform is_open id states platform.uow.commit d.commit_closes
                  (set_open platform false) (reset-Keeps platform is_open id states) p h)
            | inr b ↦ rw b h
          ]

    either-Fine :
        {A : Type 0} (b : Bool) (x y : Outcome (Failure E) A × Progress W E)
        → Fine x.1
        → Fine y.1
        → Fine (if b then x else y).1
    either-Fine true x y h k = h
    either-Fine false x y h k = k

    push-Keeps : (step : Step W E) → IsQuiet is_open step → Keeps (push platform step)
    push-Keeps step q p h = record {
      id_same = h.id_same;
      states_same = h.states_same;
      closed = h.closed;
      quiet = All-append (IsQuiet is_open) p.completed_steps (step ∷ []) h.quiet (q, tt);
    }

    on_failure-Keeps :
        (step : Step W E) (e : Failure E)
        → IsQuiet is_open step
        → Keeps (on_failure platform step e)
    unfolding on_failure compensate_step
    on_failure-Keeps step e q p h =
        either-Fine p.has_open_transaction _ _
          (closing-Keeps platform is_open id states platform.uow.rollback d.rollback_closes
            (set_open platform false
              >> (run_compensation platform (platform.message e) >> lift (throw e)))
            (λ p h c.
              Preserves-bind Fine (run_compensation platform (platform.message e)) _
                (run_compensation-Keeps (platform.message e)) (λ _ p h. h) _
                (reset-Keeps platform is_open id states p h c))
            p h)
          (compensation-Keeps step.compensation_retry step.compensate q.compensate p h)

    settle-Keeps :
        (step : Step W E) (rest : List (Step W E)) (e : Option (Failure E))
        → IsQuiet is_open step
        → Keeps (settle platform step rest e)
    settle-Keeps step rest none q p h =
        Preserves-bind Fine (push platform step) (λ _. commit_after platform step rest)
          (push-Keeps step q) (λ _. commit_after-Keeps step rest) p h
    settle-Keeps step rest (some e) q p h = on_failure-Keeps step e q p h

    enter-Keeps : (step : Step W E) → Keeps (enter platform step)
    enter-Keeps step p =
        let status =
          if p.has_open_transaction
          then ProcessStatus.processing
          else ProcessStatus.post_processing in
        move-Keeps platform is_open id states (Process.transition platform.now step.name status)
          (transition_same platform is_open id states step.name status) p

    run_step-Keeps :
        (step : Step W E) (rest : List (Step W E))
        → IsQuiet is_open step
        → Keeps (run_step platform step rest)
    unfolding run_step execute_step
    run_step-Keeps step rest q =
        let execute = caught platform (retried platform step.retry step.execute) in
        Preserves-bind Fine (begin_before platform step)
          (λ _. enter platform step >> (execute >>= settle platform step rest))
          (begin_before-Keeps step)
          λ _.
            Preserves-bind Fine (enter platform step) (λ _. execute >>= settle platform step rest)
              (enter-Keeps step)
              λ _.
                Preserves-bind Fine execute (settle platform step rest)
                  (caught-Keeps platform is_open id states
                    (retried platform step.retry step.execute)
                    (retried-Quiet platform is_open id states d step.retry step.execute q.execute))
                  λ e. settle-Keeps step rest e q

    run_steps-Keeps :
        (steps : List (Step W E)) → All (IsQuiet is_open) steps → Keeps (run_steps platform steps)
    unfolding run_steps
    run_steps-Keeps [] q p h = h
    run_steps-Keeps (step ∷ rest) (q, qs) p h =
        Preserves-bind Fine (run_step platform step rest) (λ _. run_steps platform rest)
          (run_step-Keeps step rest q) (λ _. run_steps-Keeps rest qs) p h

    finally_clean :
        (t : Outcome (Failure E) (Unit {0}) × Progress W E)
        → Fine t.1
        → (is_open (finally platform id t).1 ≡ false)
          × ((finally platform id t).2 ≡ delete id states)
    unfolding cleanup_process
    finally_clean (r, p) h = elim (Bool-cases p.has_open_transaction) [
      | inl b ↦ rw b (d.rollback_closes p.world, h.states_same)
      | inr b ↦ elim h.closed [ inl c ↦ rw b (c, h.states_same) | inr b' ↦ cc (b, b') ]
    ]

    initiated-Fine :
        (correlation_id : Text) (steps : List (Step W E)) (world : W)
        → is_open world ≡ false
        → Fine (initiated platform id correlation_id steps world states)
    unfolding Process.initiate
    initiated-Fine correlation_id steps world c = record {
      id_same = refl;
      states_same = delete-persist _ states;
      closed = inl c;
      quiet = tt;
    }

    -- However a saga ends, whether its steps, its commits or its rollbacks fail, no transaction is
    -- left open and the state of its process is forgotten, the states of others untouched.
    pub run_clean :
        (correlation_id : Text) (steps : List (Step W E)) (world : W)
        → is_open world ≡ false
        → All (IsQuiet is_open) steps
        → let t = run platform id correlation_id steps world states in
          (is_open t.1 ≡ false) × (t.2 ≡ delete id states)
    unfolding run
    run_clean correlation_id steps world c q =
        let start = initiated platform id correlation_id steps world states in
        let save_completed = save platform (Process.complete platform.now) in
        finally_clean ((run_steps platform steps >> save_completed) start) (
          Preserves-bind Fine (run_steps platform steps) (λ _. save_completed)
            (run_steps-Keeps steps q)
            (λ _.
              save-Keeps platform is_open id states (Process.complete platform.now)
                (complete_same platform is_open id states))
            start (initiated-Fine correlation_id steps world c))
