-- ===== src/Storage/StoreRoom.antt =====
-- `StoreRoomAggregate` (domain/aggregates/store-room.aggregate.ts) and its model's `with`.
pub mod Laws
use stocka_server.Prelude.{
  ℕ, ◌≡◌, refl, Bool, Option, none, some, [], ◌∷◌, ◌++◌, if◌then◌else◌, or_else, Text, text_eq,
}
use stocka_server.Shared.Outcome.{Outcome, ok, and_then, Act, ◌>>=◌, ◌>>◌, pure, lift}
use stocka_server.Storage.Exceptions.{StorageException}
use stocka_server.Storage.Values.{create_address}
use stocka_server.Storage.Model.{
  Common, StoreRoomModel, Changes, CreateProps, no_changes, with_common, store_room,
  create_store_room_model,
}
use stocka_server.Storage.Events.{StorageEvent, Subject, created, address_changed}
use stocka_server.Storage.Lifecycle
use stocka_server.Storage.Lifecycle.{StorageModel, Aggregate, Transition, common_of, subject}
use stocka_server.Storage.Update.{
  Draft, Step, UpdateProps, propose, finish, update_common, same_value, resolve_address_update,
}

-- `StoreRoomModel.with`
unfoldable pub with_store_room :
    ℕ → Changes → Option (Option Text) → StoreRoomModel → StoreRoomModel
unfolding with_common
with_store_room now changes address m = record {
  common = with_common now changes m.common;
  address = or_else address m.address;
}

pub with_store_room_common :
    (now : ℕ) (c : Changes) (m : StoreRoomModel)
    → (with_store_room now c none m).common ≡ with_common now c m.common
unfolding with_store_room
with_store_room_common now c m = refl

instance abbrev pub store_room_storage : StorageModel StoreRoomModel
store_room_storage = record {
  common = λ m. m.common;
  with_changes = λ now changes m. with_store_room now changes none m;
  kind = store_room;
  common-with_changes = with_store_room_common;
}

abbrev pub StoreRoom : Type 0
StoreRoom = Aggregate StoreRoomModel

-- `reconstitute`, and the constructor
abbrev pub reconstitute : StoreRoomModel → StoreRoom
reconstitute model = record { model = model; uncommitted = [] }

module _ (validate : Text → Bool) where
  -- `create`, with `StorageCreatedEvent`
  unfoldable pub create : ℕ → Text → CreateProps → Option Text → Outcome StorageException StoreRoom
  unfolding create_store_room_model
  create now actor props address =
      and_then (create_store_room_model validate now props address) λ model. ok (record {
        model = model;
        uncommitted =
            created
              (record {
                storage_uuid = model.uuid;
                tenant_uuid = model.tenant_uuid;
                actor_uuid = actor;
              })
              store_room model.name
            ∷ [];
      })

  -- `forTypeChange`, without an event
  unfoldable pub for_type_change :
      ℕ → CreateProps → Option Text → Outcome StorageException StoreRoom
  unfolding create_store_room_model
  for_type_change now props address =
      and_then (create_store_room_model validate now props address) λ model. ok (reconstitute model)

unfoldable pub mark_archived : ℕ → Text → StoreRoom → Transition StoreRoomModel
mark_archived = Lifecycle.mark_archived

unfoldable pub mark_frozen : ℕ → Text → StoreRoom → Transition StoreRoomModel
mark_frozen = Lifecycle.mark_frozen

unfoldable pub mark_unfrozen : ℕ → Text → StoreRoom → Transition StoreRoomModel
mark_unfrozen = Lifecycle.mark_unfrozen

unfoldable pub mark_restored : ℕ → Text → StoreRoom → Transition StoreRoomModel
mark_restored = Lifecycle.mark_restored

unfoldable pub mark_permanently_deleted : Text → StoreRoom → Transition StoreRoomModel
mark_permanently_deleted = Lifecycle.mark_permanently_deleted

abbrev pub propose_address : ℕ → Text → StoreRoom → Option Text → Step StoreRoomModel
propose_address now actor a address =
    propose (with_store_room now no_changes (some address))
      (address_changed (subject actor a) a.model.address address)

-- The address block of `update`; the outer `none` is `undefined`, the inner one `null`.
unfoldable pub update_address : ℕ → Text → StoreRoom → Option (Option Text) → Step StoreRoomModel
update_address now actor a none = pure tt
update_address now actor a (some v) = lift (resolve_address_update v) >>= λ address.
    if same_value a.model.address address then pure tt else propose_address now actor a address

unfoldable pub update :
    ℕ → Text → UpdateProps → Option (Option Text) → StoreRoom → Transition StoreRoomModel
unfolding update_address
update now actor props address a = finish a (
    (update_common now actor a props >> update_address now actor a address)
      (record { next = a.model; uncommitted = a.uncommitted }))
