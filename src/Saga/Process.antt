-- ===== src/Saga/Process.antt =====
-- `ProcessManager` (src/shared/domain/process-manager/process-manager.base.ts) and the states that it
-- keeps in memory (src/shared/infrastructure/process-manager/in-memory-process-state.ts). The payload
-- `data` of a state is the saga's context object itself and is left out.
use stocka_server.Prelude.{
  ℕ, not, Option, none, some, List, [], ◌∷◌, if◌then◌else◌, keep, find, Text, text_eq,
}

pub data ProcessStatus : Type 0 where
  started processing post_processing completed failed compensating : ProcessStatus

pub record ProcessState : Type 0 where
  pub id : Text
  pub process_name : Text
  pub correlation_id : Text
  pub status : ProcessStatus
  pub current_step : Text
  pub error_message : Option Text
  pub started_at : ℕ
  pub completed_at : Option ℕ
  pub updated_at : ℕ

-- The `Map` of the states, in the order of insertion.
abbrev pub States : Type 0
States = List ProcessState

-- `Map.set`: in place if the key is there, else at the end.
unfoldable pub persist : ProcessState → States → States
persist state [] = state ∷ []
persist state (s ∷ states) =
    let rest = persist state states in if text_eq s.id state.id then state ∷ states else s ∷ rest

unfoldable pub delete : Text → States → States
delete id = keep (λ s. not (text_eq s.id id))

unfoldable pub find_by_id : Text → States → Option ProcessState
find_by_id id = find (λ s. text_eq s.id id)

unfoldable pub find_by_correlation_id : Text → States → Option ProcessState
find_by_correlation_id id = find (λ s. text_eq s.correlation_id id)

-- The state that each method persists.
unfoldable pub initiate : ℕ → Text → Text → Text → Text → ProcessState
initiate now id process_name correlation_id initial_step = record {
  id = id;
  process_name = process_name;
  correlation_id = correlation_id;
  status = started;
  current_step = initial_step;
  error_message = none;
  started_at = now;
  completed_at = none;
  updated_at = now;
}

unfoldable pub transition : ℕ → Text → ProcessStatus → ProcessState → ProcessState
transition now next_step status state = record state {
  current_step = next_step;
  status = status;
  updated_at = now;
}

unfoldable pub complete : ℕ → ProcessState → ProcessState
complete now state = record state { status = completed; completed_at = some now; updated_at = now }

unfoldable pub fail_process : ℕ → Text → ProcessState → ProcessState
fail_process now message state = record state {
  status = failed;
  error_message = some message;
  updated_at = now;
}

unfoldable pub compensate : ℕ → Text → ProcessState → ProcessState
compensate now message state = record state {
  status = compensating;
  error_message = some message;
  updated_at = now;
}
