-- ===== src/Saga/Journal.antt =====
-- What a saga does, as a journal: steps whose outcomes are scripted, over a world that records the
-- calls, and an independent description of the journal that `run` must leave.
pub mod Laws
pub mod Run
use stocka_server.Prelude.{
  ℕ, Bool, true, false, not, ◌&&◌, Option, none, some, List, [], ◌∷◌, ◌++◌, map, reverse, keep,
  find, if◌then◌else◌, Text,
}
use stocka_server.Shared.Outcome.{Outcome, ok, throw}
use stocka_server.Saga.Retry.{Failure, raised}
use stocka_server.Saga.Engine.{Step, Task, UnitOfWork, Platform}

pub data Entry : Type 0 where
  begun committed rolled_back : Entry
  executed compensated : Text → Entry

abbrev pub Journal : Type 0
Journal = List Entry

-- A step of which it is known how it ends.
pub record Script : Type 0 where
  pub name : Text
  pub transactional : Bool
  pub fails : Bool
  pub compensates : Bool

abbrev pub note : Entry → Task Journal Text
note entry journal = (ok tt, journal ++ entry ∷ [])

-- The call is noted, then it ends as the script says.
abbrev pub scripted : Script → Task Journal Text
scripted s journal =
    (if s.fails then throw (raised s.name) else ok tt, journal ++ executed s.name ∷ [])

abbrev pub step_of : Script → Step Journal Text
step_of s = record {
  name = s.name;
  execute = scripted s;
  compensate = if s.compensates then some (note (compensated s.name)) else none;
  retry = none;
  compensation_retry = none;
  transactional = some s.transactional;
}

abbrev pub text_of : Failure Text → Text
text_of (raised e) = e
text_of _ = []

abbrev pub journal_platform : Platform Journal Text
journal_platform = record {
  uow = record { begin = note begun; commit = note committed; rollback = note rolled_back };
  delay = λ ms journal. journal;
  message = text_of;
  now = 0;
  process_name = [];
}

-- A step whose failure ends the saga.
abbrev pub is_fatal : Script → Bool
is_fatal s = s.transactional && s.fails

-- The steps that are executed: up to the first fatal one.
abbrev pub up_to_fatal : List Script → List Script
up_to_fatal [] = []
up_to_fatal (s ∷ rest) =
    let executed_rest = up_to_fatal rest in if is_fatal s then s ∷ [] else s ∷ executed_rest

abbrev pub first_transactional : List Script → Bool
first_transactional [] = false
first_transactional (s ∷ _) = s.transactional

abbrev pub recovery : Script → Journal
recovery s = if s.compensates then compensated s.name ∷ [] else []

-- What begins a transaction before a step, if none is open.
abbrev pub began_by : Bool → Bool → Journal
began_by transactional is_open = if transactional && not is_open then begun ∷ [] else []

-- What follows a step, by whether the next one is of a transaction: the end of its transaction, unless the next step goes on with it; or, if it
-- is none of a transaction and failed, its own compensation.
abbrev pub ending : Script → Bool → Journal
ending s next =
    if s.transactional
    then (if s.fails then rolled_back ∷ [] else if next then [] else committed ∷ [])
    else if s.fails
    then recovery s
    else []

-- The executed steps with the transactions around them.
abbrev pub bracketed : Bool → List Script → Journal
bracketed is_open [] = []
bracketed is_open (s ∷ rest) =
    began_by s.transactional is_open
    ++ executed s.name ∷ ending s (first_transactional rest)
    ++ bracketed (s.transactional && first_transactional rest) rest

-- The compensations of steps, in their order.
abbrev pub undo : List Script → Journal
undo [] = []
undo (s ∷ rest) = recovery s ++ undo rest

-- What undoes the saga: the compensations of the steps that succeeded, the last first.
abbrev pub undone : List Script → List Script → Journal
undone before steps = elim (find is_fatal steps) [
  | none ↦ []
  | some _ ↦ undo (reverse (before ++ keep (λ s. not s.fails) (up_to_fatal steps)))
]

abbrev pub expected : List Script → Journal
expected steps = bracketed false (up_to_fatal steps) ++ undone [] steps

-- The error that the saga ends with: that of its first fatal step.
abbrev pub expected_outcome : List Script → Outcome (Failure Text) (Unit {0})
expected_outcome steps = elim (find is_fatal steps) [
  | none ↦ ok tt
  | some s ↦ throw (raised s.name)
]
