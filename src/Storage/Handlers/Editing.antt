-- ===== src/Storage/Handlers/Editing.antt =====
-- The update handlers (application/commands/update-*).
use stocka_server.Prelude.{ℕ, Bool, false, Option, none, some, length, ◌==◌, Text, trim}
use stocka_server.Shared.Outcome.{◌>>=◌, ◌>>◌, pure, refuse_if}
use stocka_server.Storage.Exceptions.{address_required_for_warehouse}
use stocka_server.Storage.Lifecycle.{Aggregate, Transition}
use stocka_server.Storage.Update.{UpdateProps}
use stocka_server.Storage.Services.{
  Repository, Services, Handler, write, publish, find_own, storage_id, check_name, after_method,
}
use stocka_server.Storage.View.{ItemView, from_warehouse, from_store_room, from_custom_room}
use stocka_server.Storage.Handlers.Transitions.{StorageCommand}
use stocka_server.Storage.Warehouse
use stocka_server.Storage.Warehouse.{warehouse_storage}
use stocka_server.Storage.StoreRoom
use stocka_server.Storage.StoreRoom.{store_room_storage}
use stocka_server.Storage.CustomRoom
use stocka_server.Storage.CustomRoom.{custom_room_storage}

-- Whether the new address of a warehouse is blank; none given is no fault.
abbrev pub is_blank : Option Text → Bool
is_blank none = false
is_blank (some s) = length (trim s) == 0

module _ {W : Type 0} (sv : Services W) where
  -- The end of the update handlers: the container's id, the method, the row, the events, the view.
  unfoldable pub store_update :
      {M : Type 0}
      → Repository W M
      → (Aggregate M → ItemView)
      → StorageCommand
      → Transition M
      → Handler W ItemView
  store_update repo view c transition = do
    id ← storage_id sv c.storage_uuid c.tenant_uuid
    changed ← after_method transition
    saved ← write (repo.save changed id)
    publish changed.uncommitted
    pure (view saved)

  -- A warehouse's `update` has no icon and no color: the command does not carry them.
  unfoldable pub update_warehouse :
      ℕ → StorageCommand → Option Text → Option (Option Text) → Option Text → Handler W ItemView
  update_warehouse now c name description address = do
    found ← find_own sv.warehouses c.storage_uuid c.tenant_uuid
    check_name sv c.tenant_uuid name found.model.common.name
    refuse_if (is_blank address) (address_required_for_warehouse c.storage_uuid)
    store_update sv.warehouses from_warehouse c (
        Warehouse.update now c.actor_uuid
          (record { name = name; description = description; icon = none; color = none }) address
          found)

  -- Nor has a store room's.
  unfoldable pub update_store_room :
      ℕ
      → StorageCommand
      → Option Text
      → Option (Option Text)
      → Option (Option Text)
      → Handler W ItemView
  update_store_room now c name description address = do
    found ← find_own sv.store_rooms c.storage_uuid c.tenant_uuid
    check_name sv c.tenant_uuid name found.model.common.name
    store_update sv.store_rooms from_store_room c (
        StoreRoom.update now c.actor_uuid
          (record { name = name; description = description; icon = none; color = none }) address
          found)

  unfoldable pub update_custom_room :
      ℕ → StorageCommand → UpdateProps → Option Text → Option (Option Text) → Handler W ItemView
  update_custom_room now c props room_type address = do
    found ← find_own sv.custom_rooms c.storage_uuid c.tenant_uuid
    check_name sv c.tenant_uuid props.name found.model.common.name
    store_update sv.custom_rooms from_custom_room c
        (CustomRoom.update now c.actor_uuid props room_type address found)
