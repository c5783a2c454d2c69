-- ===== src/Authentication/Sagas.antt =====
-- The engine of the sagas on the world of the authentication context: the unit of work acts on the
-- database only.
pub mod Atomic
pub mod After
pub mod Quiet
pub mod Whole
use stocka_server.Prelude.{ℕ, ◌≡◌, Text}
use stocka_server.Shared.Outcome.{ok, Act}
use stocka_server.Shared.Bus.{store}
use stocka_server.Saga.Retry.{Failure}
use stocka_server.Saga.Engine.{Platform}
use stocka_server.Authentication.Services.{AuthError}
use stocka_server.Authentication.Sessions.{World, on_server}

-- `begin`, `commit` and `rollback` of the unit of work on a database `W`.
pub record Transaction (W : Type 0) : Type 0 where
  pub begin : Act W AuthError (Unit {0})
  pub commit : Act W AuthError (Unit {0})
  pub rollback : Act W AuthError (Unit {0})

-- Waiting changes nothing.
abbrev pub saga_platform :
    {C W : Type 0}
    → Transaction W
    → (Failure AuthError → Text)
    → ℕ
    → Text
    → Platform (World C W) AuthError
saga_platform tx message now name = record {
  uow = record {
    begin = on_server (store tx.begin);
    commit = on_server (store tx.commit);
    rollback = on_server (store tx.rollback);
  };
  delay = λ ms p. p;
  message = message;
  now = now;
  process_name = name;
}

-- How a unit of work isolates: `rows` are the rows that its connection sees, `saved` those that a
-- rollback would bring back; a commit that fails leaves those.
pub record Isolates {W R : Type 0} (tx : Transaction W) (rows saved : W → R) : Type 0 where
  pub begin_keeps : (w : W) → rows (tx.begin w).1 ≡ rows w
  pub begin_saves : (w : W) → saved (tx.begin w).1 ≡ rows w
  pub commit-saved : (w : W) → ¬ ((tx.commit w).0 ≡ ok tt) → saved (tx.commit w).1 ≡ saved w
  pub rollback_restores : (w : W) → rows (tx.rollback w).1 ≡ saved w
  pub rollback-saved : (w : W) → saved (tx.rollback w).1 ≡ saved w
