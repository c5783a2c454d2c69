-- ===== src/Shared/Bus.antt =====
-- A server of a context that publishes events `V`: its database `W`, and what its event bus has been
-- given. Errors are those of the context, `E`.
use stocka_server.Prelude.{List, ◌++◌}
use stocka_server.Shared.Outcome.{Outcome, ok, Act}

pub record Bus (W V : Type 0) : Type 0 where
  pub db : W
  pub published : List V

module _ {W V E : Type 0} where
  -- A query of a repository or of a port; it leaves the database alone.
  abbrev pub ask : {A : Type 0} → (W → Outcome E A) → Act (Bus W V) E A
  ask q s = (q s.db, s)

  -- A call that writes.
  abbrev pub store : {A : Type 0} → Act W E A → Act (Bus W V) E A
  store m s = let (r, w) = m s.db in (r, record s { db = w })

  -- `commit()` of an aggregate whose context was merged, or `eventBus.publish`
  abbrev pub emit : List V → Act (Bus W V) E (Unit {0})
  emit events s = (ok tt, record s { published = s.published ++ events })
