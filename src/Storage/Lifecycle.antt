-- ===== src/Storage/Lifecycle.antt =====
-- The state transitions that `WarehouseAggregate`, `StoreRoomAggregate` and `CustomRoomAggregate`
-- spell alike (domain/aggregates), over an interface that each model implements.
pub mod Machine
pub mod Run
use stocka_server.Prelude.{
  ℕ, ◌≡◌, Bool, true, false, ◌||◌, not, Option, none, some, List, [], ◌∷◌, ◌++◌, if◌then◌else◌,
  is_some, Text,
}
use stocka_server.Shared.Outcome.{Outcome, ok, err}
use stocka_server.Storage.Exceptions.{
  StorageException, already_archived, already_frozen, archived_cannot_be_frozen, not_archived,
  not_frozen,
}
use stocka_server.Storage.Model.{
  Common, Changes, StorageType, with_common, no_changes, is_archived, is_frozen,
}
use stocka_server.Storage.Events
use stocka_server.Storage.Events.{StorageEvent, Subject}

-- What an aggregate needs of its model.
pub record StorageModel (M : Type 0) : Type 0 where
  pub common : M → Common
  pub with_changes : ℕ → Changes → M → M
  pub kind : StorageType
  pub common-with_changes :
      (now : ℕ) (c : Changes) (m : M) → common (with_changes now c m) ≡ with_common now c (common m)

-- `_model`, and the events that `apply` has collected and `commit` will publish.
pub record Aggregate (M : Type 0) : Type 0 where
  pub model : M
  pub uncommitted : List StorageEvent

-- What a method returns and leaves behind.
abbrev pub Transition : Type 0 → Type 0
Transition M = Outcome StorageException (Unit {0}) × Aggregate M

module _ {M : Type 0} ⦃k : StorageModel M⦄ where
  abbrev pub common_of : Aggregate M → Common
  common_of a = k.common a.model

  abbrev pub subject : Text → Aggregate M → Subject
  subject actor a = record {
    storage_uuid = (common_of a).uuid;
    tenant_uuid = (common_of a).tenant_uuid;
    actor_uuid = actor;
  }

  -- `this._model = this._model.with(changes); this.apply(event); return ok(undefined)`
  abbrev pub accept : ℕ → Changes → StorageEvent → Aggregate M → Transition M
  accept now changes event a = (
    ok tt,
    record {
      model = k.with_changes now changes a.model;
      uncommitted = a.uncommitted ++ event ∷ [];
    },
  )

  unfoldable pub mark_archived : ℕ → Text → Aggregate M → Transition M
  mark_archived now actor a =
      if is_some (common_of a).archived_at
      then (err (already_archived (common_of a).uuid), a)
      else accept now (record no_changes { frozen_at = some none; archived_at = some (some now) })
          (Events.archived (subject actor a)) a

  unfoldable pub mark_frozen : ℕ → Text → Aggregate M → Transition M
  mark_frozen now actor a =
      if is_some (common_of a).archived_at
      then (err (archived_cannot_be_frozen (common_of a).uuid), a)
      else if is_some (common_of a).frozen_at
      then (err (already_frozen (common_of a).uuid), a)
      else accept now (record no_changes { frozen_at = some (some now) })
          (Events.frozen (subject actor a)) a

  unfoldable pub mark_unfrozen : ℕ → Text → Aggregate M → Transition M
  mark_unfrozen now actor a =
      if not (is_some (common_of a).frozen_at) || is_some (common_of a).archived_at
      then (err (not_frozen (common_of a).uuid), a)
      else accept now (record no_changes { frozen_at = some none })
          (Events.reactivated (subject actor a)) a

  unfoldable pub mark_restored : ℕ → Text → Aggregate M → Transition M
  mark_restored now actor a =
      if not (is_some (common_of a).archived_at)
      then (err (not_archived (common_of a).uuid), a)
      else accept now (record no_changes { frozen_at = some none; archived_at = some none })
          (Events.restored (subject actor a)) a

  -- The row is deleted by the handler; the aggregate only checks and announces.
  unfoldable pub mark_permanently_deleted : Text → Aggregate M → Transition M
  mark_permanently_deleted actor a =
      if not (is_some (common_of a).archived_at)
      then (err (not_archived (common_of a).uuid), a)
      else (
        ok tt,
        record a {
          uncommitted =
              a.uncommitted
              ++ Events.permanently_deleted (subject actor a) k.kind (common_of a).name ∷ [];
        },
      )
