-- ===== src/Saga/Tests.antt =====
-- Runs of sagas and of the retry on concrete steps, and the theorems about them applied to these.
use stocka_server.Prelude.{
  ℕ, suc, ◌+◌, ◌≤◌, ◌<◌, ltb, if◌then◌else◌, ◌≡◌, refl, inl, Bool, true, false, none, some, List,
  [], ◌∷◌, map, Text, codes, arith,
}
use stocka_server.Shared.Outcome.{ok, throw, Act}
use stocka_server.Saga.Retry.{Failure, raised, retry_exhausted, RetryOptions, with_retry}
use stocka_server.Saga.Retry.Laws.{Meters, with_retry_bounded, with_retry_exhausted}
use stocka_server.Saga.Retry.Recovery.{with_retry_recovered}
use stocka_server.Saga.Process.{delete}
use stocka_server.Saga.Engine.{Step, Platform, run}
use stocka_server.Saga.Engine.Invariant.{Discipline, IsQuiet}
use stocka_server.Saga.Engine.TwoPhase.{IsInert, two_phase}
use stocka_server.Saga.Engine.TwoPhase.Run.{run-two_phase}
use stocka_server.Saga.Engine.Cleanup.{run_clean}
use stocka_server.Saga.Journal.{
  begun, committed, rolled_back, executed, compensated, Script, step_of, journal_platform,
}
use stocka_server.Saga.Journal.Run.{run_journal}

-- A transaction of one step, a side effect that fails, and a transaction whose second step fails.
abbrev steps : List Script
steps =
    record { name = codes "a"; transactional = true; fails = false; compensates = true }
    ∷ record { name = codes "b"; transactional = false; fails = true; compensates = true }
    ∷ record { name = codes "c"; transactional = true; fails = false; compensates = true }
    ∷ record { name = codes "d"; transactional = true; fails = true; compensates = true }
    ∷ record { name = codes "e"; transactional = true; fails = false; compensates = true }
    ∷ []

run_journal_example :
    let t = run journal_platform (codes "p") (codes "q") (map step_of steps) [] [] in
    (t.0 ≡ throw (raised (codes "d")))
    × (t.1
        ≡ begun
          ∷ executed (codes "a")
          ∷ committed
          ∷ executed (codes "b")
          ∷ compensated (codes "b")
          ∷ begun
          ∷ executed (codes "c")
          ∷ executed (codes "d")
          ∷ rolled_back
          ∷ compensated (codes "c")
          ∷ compensated (codes "a")
          ∷ [])
run_journal_example = run_journal (codes "p") (codes "q") [] steps

-- A database of which it is only seen whether a transaction is open; its commits fail.
abbrev flaky : Platform Bool Text
flaky = record {
  uow = record {
    begin = λ w. (ok tt, true);
    commit = λ w. (throw (raised (codes "lost")), false);
    rollback = λ w. (ok tt, false);
  };
  delay = λ ms w. w;
  message = λ e. [];
  now = 5;
  process_name = codes "test";
}

abbrev harmless : Step Bool Text
harmless = record {
  name = codes "a";
  execute = λ w. (ok tt, w);
  compensate = none;
  retry = some (record { max_attempts = 3; backoff_ms = 100 });
  compensation_retry = none;
  transactional = none;
}

flaky-Discipline : Discipline flaky (λ w. w)
flaky-Discipline = record {
  begin_throws = λ w e h. cc h;
  commit_closes = λ w. refl;
  rollback_closes = λ w. refl;
  delay_keeps = λ ms w. refl;
}

harmless-IsQuiet : IsQuiet (λ w. w) harmless
harmless-IsQuiet = record { execute = λ w. refl; compensate = tt }

run_clean_example :
    let t = run flaky (codes "p") (codes "q") (harmless ∷ []) false [] in
    (t.1 ≡ false) × (t.2 ≡ delete (codes "p") [])
run_clean_example =
    run_clean flaky (λ w. w) (codes "p") [] flaky-Discipline (codes "q") (harmless ∷ []) false refl
      (harmless-IsQuiet, tt)

-- A world that counts the calls and the milliseconds.
pub record Meter : Type 0 where
  pub calls : ℕ
  pub waited : ℕ

abbrev wait : ℕ → Meter → Meter
wait ms w = record w { waited = w.waited + ms }

abbrev broken : Act Meter (Failure Text) (Unit {0})
broken w = (throw (raised []), record w { calls = suc w.calls })

abbrev meters : Meters Meter Text (Unit {0}) wait broken
meters = record {
  calls = λ w. w.calls;
  waited = λ w. w.waited;
  calls-operation = λ w. refl;
  calls-delay = λ ms w. refl;
  waited-operation = λ w. refl;
  waited-delay = λ ms w. refl;
}

abbrev options : RetryOptions
options = record { max_attempts = 4; backoff_ms = 100 }

abbrev fresh : Meter
fresh = record { calls = 0; waited = 0 }

with_retry_bounded_example : (with_retry wait broken options fresh).1.calls ≤ 0 + 4
with_retry_bounded_example = with_retry_bounded options meters fresh

with_retry_exhausted_example :
    ((with_retry wait broken options fresh).1.calls ≡ 4)
    × ((with_retry wait broken options fresh).1.waited + 100 ≡ 800)
    × ((e : Failure Text) × ((with_retry wait broken options fresh).0
          ≡ throw (retry_exhausted 4 e)))
with_retry_exhausted_example =
    with_retry_exhausted options meters (λ w. raised []) (λ w. refl) fresh (omega arith)

-- An operation whose third call is the first to answer.
abbrev unsteady : Act Meter (Failure Text) ℕ
unsteady w = (if ltb w.calls 2 then throw (raised []) else ok 7, record w { calls = suc w.calls })

abbrev unsteady_meters : Meters Meter Text ℕ wait unsteady
unsteady_meters = record {
  calls = λ w. w.calls;
  waited = λ w. w.waited;
  calls-operation = λ w. refl;
  calls-delay = λ ms w. refl;
  waited-operation = λ w. refl;
  waited-delay = λ ms w. refl;
}

unsteady_fails : (w : Meter) → w.calls < 2 → (unsteady w).0 ≡ throw (raised [])
unsteady_fails w h = ground arith

unsteady_answers : (w : Meter) → w.calls ≡ 2 → (unsteady w).0 ≡ ok 7
unsteady_answers w h = ground arith

with_retry_recovered_example :
    ((with_retry wait unsteady options fresh).0 ≡ ok 7)
    × ((with_retry wait unsteady options fresh).1.calls ≡ 3)
    × ((with_retry wait unsteady options fresh).1.waited + 100 ≡ 400)
with_retry_recovered_example =
    with_retry_recovered options unsteady_meters 2 (λ w. raised []) 7 unsteady_fails
      unsteady_answers 2 fresh refl (omega arith)

-- A step that does nothing, in or after the transaction.
abbrev plain_step : Bool → Step Bool Text
plain_step inside = record {
  name = codes "step";
  execute = λ w. (ok tt, w);
  compensate = none;
  retry = none;
  compensation_retry = none;
  transactional = some inside;
}

plain_step-IsInert : (inside : Bool) → IsInert (plain_step inside)
plain_step-IsInert inside = record { no_retry = refl; no_effect = inl refl }

run-two_phase_example :
    let t =
      run flaky
        (codes "p")
        (codes "q")
        (plain_step true ∷ plain_step true ∷ plain_step false ∷ [])
        false
        [] in
    (t.0, t.1)
    ≡ two_phase flaky (plain_step true ∷ plain_step true ∷ []) (plain_step false ∷ []) false
run-two_phase_example =
    run-two_phase flaky (codes "p") (codes "q") (plain_step true) (plain_step true ∷ [])
      (plain_step false ∷ []) false [] (record { inert = plain_step-IsInert true; inside = refl })
      (record { inert = plain_step-IsInert true; inside = refl }, tt)
      (record { inert = plain_step-IsInert false; outside = refl }, tt)
