-- ===== src/Storage/Warehouse.antt =====
-- `WarehouseAggregate` (domain/aggregates/warehouse.aggregate.ts) and its model's `with`.
pub mod Laws
use stocka_server.Prelude.{
  ℕ, ◌≡◌, refl, Bool, Option, none, some, [], ◌∷◌, ◌++◌, if◌then◌else◌, or_else, Text, text_eq,
}
use stocka_server.Shared.Outcome.{Outcome, ok, and_then, Act, ◌>>=◌, ◌>>◌, pure, lift}
use stocka_server.Storage.Exceptions.{StorageException}
use stocka_server.Storage.Values.{create_address}
use stocka_server.Storage.Model.{
  Common, WarehouseModel, Changes, CreateProps, no_changes, with_common, warehouse,
  create_warehouse_model,
}
use stocka_server.Storage.Events.{StorageEvent, Subject, created, address_changed}
use stocka_server.Storage.Lifecycle
use stocka_server.Storage.Lifecycle.{StorageModel, Aggregate, Transition, common_of, subject}
use stocka_server.Storage.Update.{Draft, Step, UpdateProps, propose, finish, update_common}

-- `WarehouseModel.with`
unfoldable pub with_warehouse : ℕ → Changes → Option Text → WarehouseModel → WarehouseModel
unfolding with_common
with_warehouse now changes address m = record {
  common = with_common now changes m.common;
  address = or_else address m.address;
}

pub with_warehouse_common :
    (now : ℕ) (c : Changes) (m : WarehouseModel)
    → (with_warehouse now c none m).common ≡ with_common now c m.common
unfolding with_warehouse
with_warehouse_common now c m = refl

instance abbrev pub warehouse_storage : StorageModel WarehouseModel
warehouse_storage = record {
  common = λ m. m.common;
  with_changes = λ now changes m. with_warehouse now changes none m;
  kind = warehouse;
  common-with_changes = with_warehouse_common;
}

abbrev pub Warehouse : Type 0
Warehouse = Aggregate WarehouseModel

-- `reconstitute`, and the constructor
abbrev pub reconstitute : WarehouseModel → Warehouse
reconstitute model = record { model = model; uncommitted = [] }

module _ (validate : Text → Bool) where
  -- `create`, with `StorageCreatedEvent`
  unfoldable pub create : ℕ → Text → CreateProps → Text → Outcome StorageException Warehouse
  unfolding create_warehouse_model
  create now actor props address =
      and_then (create_warehouse_model validate now props address) λ model. ok (record {
        model = model;
        uncommitted =
            created
              (record {
                storage_uuid = model.uuid;
                tenant_uuid = model.tenant_uuid;
                actor_uuid = actor;
              })
              warehouse model.name
            ∷ [];
      })

  -- `forTypeChange`, without an event
  unfoldable pub for_type_change : ℕ → CreateProps → Text → Outcome StorageException Warehouse
  unfolding create_warehouse_model
  for_type_change now props address =
      and_then (create_warehouse_model validate now props address) λ model. ok (reconstitute model)

unfoldable pub mark_archived : ℕ → Text → Warehouse → Transition WarehouseModel
mark_archived = Lifecycle.mark_archived

unfoldable pub mark_frozen : ℕ → Text → Warehouse → Transition WarehouseModel
mark_frozen = Lifecycle.mark_frozen

unfoldable pub mark_unfrozen : ℕ → Text → Warehouse → Transition WarehouseModel
mark_unfrozen = Lifecycle.mark_unfrozen

unfoldable pub mark_restored : ℕ → Text → Warehouse → Transition WarehouseModel
mark_restored = Lifecycle.mark_restored

unfoldable pub mark_permanently_deleted : Text → Warehouse → Transition WarehouseModel
mark_permanently_deleted = Lifecycle.mark_permanently_deleted

-- The address block of `update`.
unfoldable pub update_address : ℕ → Text → Warehouse → Option Text → Step WarehouseModel
update_address now actor a none = pure tt
update_address now actor a (some v) =
    if text_eq v a.model.address
    then pure tt
    else (lift (create_address v) >>= λ address.
        propose (with_warehouse now no_changes (some address))
          (address_changed (subject actor a) (some a.model.address) (some v)))

unfoldable pub update : ℕ → Text → UpdateProps → Option Text → Warehouse → Transition WarehouseModel
unfolding update_address
update now actor props address a = finish a (
    (update_common now actor a props >> update_address now actor a address)
      (record { next = a.model; uncommitted = a.uncommitted }))
