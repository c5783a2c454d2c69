-- ===== src/Saga/Engine/Invariant.antt =====
-- The invariant between two stages of a run of a saga, and the parts of a stage that keep it.
use stocka_server.Prelude.{
  IfSome, ℕ, ◌≡◌, refl, sym, ◌∙◌, subst, Bool, true, false, Option, none, some, [], ◌∷◌, All, Text,
  text_eq, text_eq_refl, Bool-cases, ◌⊎◌, inl, inr,
}
use stocka_server.Shared.Outcome.{throw, ◌>>◌, Outcome-cases}
use stocka_server.Shared.Rules.{Preserves}
use stocka_server.Saga.Retry.{Failure, RetryOptions}
use stocka_server.Saga.Retry.Laws.{with_retry-Leaves}
use stocka_server.Saga.Process
use stocka_server.Saga.Process.{ProcessState, ProcessStatus, States, persist, delete}
use stocka_server.Saga.Engine.{
  Task, Step, Progress, Platform, Stage, caught, await, save, move, retried,
}

pub delete-persist :
    (state : ProcessState) (states : States)
    → delete state.id (persist state states) ≡ delete state.id states
unfolding delete persist
delete-persist state [] = rw (text_eq_refl state.id) refl
delete-persist state (s ∷ states) = elim (Bool-cases (text_eq s.id state.id)) [
  | inl e ↦ rw (e, text_eq_refl state.id) refl
  | inr e ↦ rw e (rw (e, delete-persist state states) refl)
]

delete-persist_id :
    (id : Text) (state : ProcessState) (states : States)
    → state.id ≡ id
    → delete id (persist state states) ≡ delete id states
delete-persist_id id state states e =
    subst (λ i. delete i (persist state states) ≡ delete i states) e (delete-persist state states)

-- How a unit of work keeps track of its transaction: whatever `commit` and `rollback` answer, none is
-- open afterwards, nor is one after a `begin` that throws; waiting changes nothing.
pub record Discipline {W E : Type 0} (platform : Platform W E) (is_open : W → Bool) : Type 0 where
  pub begin_throws :
      (w : W) (e : Failure E)
      → (platform.uow.begin w).0 ≡ throw e
      → is_open (platform.uow.begin w).1 ≡ false
  pub commit_closes : (w : W) → is_open (platform.uow.commit w).1 ≡ false
  pub rollback_closes : (w : W) → is_open (platform.uow.rollback w).1 ≡ false
  pub delay_keeps : (ms : ℕ) (w : W) → is_open (platform.delay ms w) ≡ is_open w

abbrev pub IsQuietTask : {W E : Type 0} → (W → Bool) → Task W E → Type 0
IsQuietTask {W} is_open task = (w : W) → is_open (task w).1 ≡ is_open w

-- A step whose handler leaves the transaction to the saga.
pub record IsQuiet {W E : Type 0} (is_open : W → Bool) (step : Step W E) : Type 0 where
  pub execute : IsQuietTask is_open step.execute
  pub compensate : IfSome (IsQuietTask is_open) step.compensate

module _ {W E : Type 0} (platform : Platform W E) (is_open : W → Bool) (id : Text)
    (states : States) where
  -- Between two stages of a run: the state is that of `id`, the other states are as they were, and
  -- no transaction is open that the saga does not know of.
  pub record Fine (p : Progress W E) : Type 0 where
    pub id_same : p.state.id ≡ id
    pub states_same : delete id p.states ≡ delete id states
    pub closed : (is_open p.world ≡ false) ⊎ (p.has_open_transaction ≡ true)
    pub quiet : All (IsQuiet is_open) p.completed_steps

  abbrev pub Keeps : {A : Type 0} → Stage platform A → Type 0
  Keeps m = Preserves Fine m

  abbrev pub SameId : (ProcessState → ProcessState) → Type 0
  SameId change = (s : ProcessState) → (change s).id ≡ s.id

  pub save-Keeps :
      (change : ProcessState → ProcessState) → SameId change → Keeps (save platform change)
  save-Keeps change same p h = record {
    id_same = h.id_same;
    states_same =
        delete-persist_id id (change p.state) p.states (same p.state ∙ h.id_same) ∙ h.states_same;
    closed = h.closed;
    quiet = h.quiet;
  }

  pub move-Keeps :
      (change : ProcessState → ProcessState) → SameId change → Keeps (move platform change)
  move-Keeps change same p h = record {
    id_same = same p.state ∙ h.id_same;
    states_same =
        delete-persist_id id (change p.state) p.states (same p.state ∙ h.id_same) ∙ h.states_same;
    closed = h.closed;
    quiet = h.quiet;
  }

  pub caught-Keeps : (task : Task W E) → IsQuietTask is_open task → Keeps (caught platform task)
  caught-Keeps task q p h = record {
    id_same = h.id_same;
    states_same = h.states_same;
    closed = subst (λ b. (b ≡ false) ⊎ (p.has_open_transaction ≡ true)) (sym (q p.world)) h.closed;
    quiet = h.quiet;
  }

  -- The flag is reset when no transaction is open.
  pub reset-Keeps :
      (p : Progress W E)
      → Fine p
      → is_open p.world ≡ false
      → Fine (record p { has_open_transaction = false })
  reset-Keeps p h c = record {
    id_same = h.id_same;
    states_same = h.states_same;
    closed = inl c;
    quiet = h.quiet;
  }

  -- A call of the unit of work after which no transaction is open, and what follows it.
  module _ (task : Task W E) (closes : (w : W) → is_open (task w).1 ≡ false) where
    after_closing : (p : Progress W E) → Fine p → Fine (record p { world = (task p.world).1 })
    after_closing p h = record {
      id_same = h.id_same;
      states_same = h.states_same;
      closed = inl (closes p.world);
      quiet = h.quiet;
    }

    pub closing-Keeps :
        {A : Type 0} (next : Stage platform A)
        → ((p : Progress W E) → Fine p → is_open p.world ≡ false → Fine (next p).1)
        → Keeps (await platform task >> next)
    closing-Keeps next k p h =
        let reset = k _ (after_closing p h) (closes p.world) in
        elim (Outcome-cases (task p.world).0) [
          | inl (a, e) ↦ rw e reset
          | inr (inl (a, e)) ↦ rw e reset
          | inr (inr (a, e)) ↦ rw e (after_closing p h)
        ]

  pub retried-Quiet :
      Discipline platform is_open
      → (retry : Option RetryOptions) (task : Task W E) → IsQuietTask is_open task
      → IsQuietTask is_open (retried platform retry task)
  retried-Quiet d none task q = q
  retried-Quiet d (some options) task q =
      with_retry-Leaves is_open platform.delay d.delay_keeps task options q

  pub compensate_same : (message : Text) → SameId (Process.compensate platform.now message)
  unfolding Process.compensate
  compensate_same message s = refl

  pub fail_process_same : (message : Text) → SameId (Process.fail_process platform.now message)
  unfolding Process.fail_process
  fail_process_same message s = refl

  pub complete_same : SameId (Process.complete platform.now)
  unfolding Process.complete
  complete_same s = refl

  pub transition_same :
      (step : Text) (status : ProcessStatus) → SameId (Process.transition platform.now step status)
  unfolding Process.transition
  transition_same step status s = refl

  -- After `begin`: the flag is set, or it threw.
  pub opened :
      (p : Progress W E) (w : W)
      → Fine p
      → Fine (record p { world = w; has_open_transaction = true })
  opened p w h = record {
    id_same = h.id_same;
    states_same = h.states_same;
    closed = inr refl;
    quiet = h.quiet;
  }

  pub unopened :
      (p : Progress W E) (w : W) → Fine p → is_open w ≡ false → Fine (record p { world = w })
  unopened p w h c = record {
    id_same = h.id_same;
    states_same = h.states_same;
    closed = inl c;
    quiet = h.quiet;
  }
