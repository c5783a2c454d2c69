-- ===== src/Storage/CustomRoom.antt =====
-- `CustomRoomAggregate` (domain/aggregates/custom-room.aggregate.ts) and its model's `with`.
pub mod Laws
use stocka_server.Prelude.{
  ℕ, ◌≡◌, refl, Bool, Option, none, some, [], ◌∷◌, ◌++◌, if◌then◌else◌, or_else, Text, text_eq,
}
use stocka_server.Shared.Outcome.{Outcome, ok, and_then, Act, ◌>>=◌, ◌>>◌, pure, lift}
use stocka_server.Storage.Exceptions.{StorageException}
use stocka_server.Storage.Values.{create_room_type_name}
use stocka_server.Storage.Model.{
  Common, CustomRoomModel, Changes, CreateProps, no_changes, with_common, custom_room,
  create_custom_room_model,
}
use stocka_server.Storage.Events.{StorageEvent, Subject, created, address_changed, type_changed}
use stocka_server.Storage.Lifecycle
use stocka_server.Storage.Lifecycle.{StorageModel, Aggregate, Transition, common_of, subject}
use stocka_server.Storage.Update.{
  Draft, Step, UpdateProps, propose, finish, update_common, same_value, resolve_address_update,
}

-- `CustomRoomModel.with`
unfoldable pub with_custom_room :
    ℕ → Changes → Option Text → Option (Option Text) → CustomRoomModel → CustomRoomModel
unfolding with_common
with_custom_room now changes room_type address m = record {
  common = with_common now changes m.common;
  room_type = or_else room_type m.room_type;
  address = or_else address m.address;
}

pub with_custom_room_common :
    (now : ℕ) (c : Changes) (m : CustomRoomModel)
    → (with_custom_room now c none none m).common ≡ with_common now c m.common
unfolding with_custom_room
with_custom_room_common now c m = refl

instance abbrev pub custom_room_storage : StorageModel CustomRoomModel
custom_room_storage = record {
  common = λ m. m.common;
  with_changes = λ now changes m. with_custom_room now changes none none m;
  kind = custom_room;
  common-with_changes = with_custom_room_common;
}

abbrev pub CustomRoom : Type 0
CustomRoom = Aggregate CustomRoomModel

-- `reconstitute`, and the constructor
abbrev pub reconstitute : CustomRoomModel → CustomRoom
reconstitute model = record { model = model; uncommitted = [] }

module _ (validate : Text → Bool) where
  -- `create`, with `StorageCreatedEvent`
  unfoldable pub create :
      ℕ → Text → CreateProps → Text → Option Text → Outcome StorageException CustomRoom
  unfolding create_custom_room_model
  create now actor props room_type address =
      and_then (create_custom_room_model validate now props room_type address) λ model. ok (record {
        model = model;
        uncommitted =
            created
              (record {
                storage_uuid = model.uuid;
                tenant_uuid = model.tenant_uuid;
                actor_uuid = actor;
              })
              custom_room model.name
            ∷ [];
      })

  -- `forTypeChange`, without an event
  unfoldable pub for_type_change :
      ℕ → CreateProps → Text → Option Text → Outcome StorageException CustomRoom
  unfolding create_custom_room_model
  for_type_change now props room_type address =
      and_then (create_custom_room_model validate now props room_type address)
        λ model. ok (reconstitute model)

unfoldable pub mark_archived : ℕ → Text → CustomRoom → Transition CustomRoomModel
mark_archived = Lifecycle.mark_archived

unfoldable pub mark_frozen : ℕ → Text → CustomRoom → Transition CustomRoomModel
mark_frozen = Lifecycle.mark_frozen

unfoldable pub mark_unfrozen : ℕ → Text → CustomRoom → Transition CustomRoomModel
mark_unfrozen = Lifecycle.mark_unfrozen

unfoldable pub mark_restored : ℕ → Text → CustomRoom → Transition CustomRoomModel
mark_restored = Lifecycle.mark_restored

unfoldable pub mark_permanently_deleted : Text → CustomRoom → Transition CustomRoomModel
mark_permanently_deleted = Lifecycle.mark_permanently_deleted

abbrev pub propose_address : ℕ → Text → CustomRoom → Option Text → Step CustomRoomModel
propose_address now actor a address =
    propose (with_custom_room now no_changes none (some address))
      (address_changed (subject actor a) a.model.address address)

-- The address block of `update`; the outer `none` is `undefined`, the inner one `null`.
unfoldable pub update_address : ℕ → Text → CustomRoom → Option (Option Text) → Step CustomRoomModel
update_address now actor a none = pure tt
update_address now actor a (some v) = lift (resolve_address_update v) >>= λ address.
    if same_value a.model.address address then pure tt else propose_address now actor a address

-- The room type block of `update`, which announces a change of type.
unfoldable pub update_room_type : ℕ → Text → CustomRoom → Option Text → Step CustomRoomModel
update_room_type now actor a none = pure tt
update_room_type now actor a (some v) =
    if text_eq v a.model.room_type
    then pure tt
    else (lift (create_room_type_name v) >>= λ room_type.
        propose (with_custom_room now no_changes (some room_type) none)
          (type_changed (subject actor a) a.model.room_type v))

unfoldable pub update :
    ℕ
    → Text
    → UpdateProps
    → Option Text
    → Option (Option Text)
    → CustomRoom
    → Transition CustomRoomModel
unfolding update_address update_room_type
update now actor props room_type address a = finish a (
    (update_common now actor a props
        >> (update_room_type now actor a room_type >> update_address now actor a address))
      (record { next = a.model; uncommitted = a.uncommitted }))
