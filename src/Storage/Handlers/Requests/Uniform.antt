-- ===== src/Storage/Handlers/Requests/Uniform.antt =====
-- The handlers of the five commands that the three kinds of storages share, by the kind.
use stocka_server.Prelude.{ℕ, ◌≡◌, refl, Text}
use stocka_server.Storage.Model.{
  WarehouseModel, StoreRoomModel, CustomRoomModel, StorageType, warehouse, store_room, custom_room,
}
use stocka_server.Storage.Lifecycle.{StorageModel, Aggregate, mark_permanently_deleted}
use stocka_server.Storage.Lifecycle.Machine
use stocka_server.Storage.Lifecycle.Machine.{Operation, apply_operation}
use stocka_server.Storage.Policy.{
  Guard, assert_warehouse_can_restore, assert_store_room_can_restore,
  assert_custom_room_can_restore,
}
use stocka_server.Storage.View.{ItemView, from_warehouse, from_store_room, from_custom_room}
use stocka_server.Storage.Warehouse
use stocka_server.Storage.Warehouse.{warehouse_storage}
use stocka_server.Storage.StoreRoom
use stocka_server.Storage.StoreRoom.{store_room_storage}
use stocka_server.Storage.CustomRoom
use stocka_server.Storage.CustomRoom.{custom_room_storage}
use stocka_server.Storage.Services.{Repository, Services, Handler}
use stocka_server.Storage.Handlers.Transitions
use stocka_server.Storage.Handlers.Transitions.{
  StorageCommand, transition_handler, restore_handler, delete_handler,
}
use stocka_server.Storage.Handlers.Requests.{Request, drop_reply, handle}

abbrev pub ModelOf : StorageType → Type 0
ModelOf warehouse = WarehouseModel
ModelOf store_room = StoreRoomModel
ModelOf custom_room = CustomRoomModel

abbrev pub storage_of : (t : StorageType) → StorageModel (ModelOf t)
storage_of warehouse = warehouse_storage
storage_of store_room = store_room_storage
storage_of custom_room = custom_room_storage

abbrev pub view_of : (t : StorageType) → Aggregate (ModelOf t) → ItemView
view_of warehouse = from_warehouse
view_of store_room = from_store_room
view_of custom_room = from_custom_room

module _ {W : Type 0} (sv : Services W) where
  abbrev pub table_of : (t : StorageType) → Repository W (ModelOf t)
  table_of warehouse = sv.warehouses
  table_of store_room = sv.store_rooms
  table_of custom_room = sv.custom_rooms

  abbrev pub guard_of : StorageType → Text → Guard W
  guard_of warehouse = assert_warehouse_can_restore sv
  guard_of store_room = assert_store_room_can_restore sv
  guard_of custom_room = assert_custom_room_can_restore sv

  module _ (now : ℕ) (t : StorageType) (c : StorageCommand) where
    -- One of the methods archive, freeze and unfreeze, restore, and the deletion.
    abbrev pub handle_transition : Operation → Handler W ItemView
    handle_transition op =
        transition_handler sv ⦃k = storage_of t⦄ (table_of t) (view_of t)
          (apply_operation ⦃k = storage_of t⦄ op now) c

    abbrev pub handle_restore : Handler W ItemView
    handle_restore =
        restore_handler sv ⦃k = storage_of t⦄ (table_of t) (view_of t) (guard_of t)
          (apply_operation ⦃k = storage_of t⦄ Machine.restore now) c

    abbrev pub handle_deletion : Handler W (Unit {0})
    handle_deletion =
        delete_handler sv ⦃k = storage_of t⦄ (table_of t)
          (mark_permanently_deleted ⦃k = storage_of t⦄) c

  module _ (now : ℕ) (c : StorageCommand) where
    pub archive-uniform :
        (t : StorageType)
        → handle sv now (Request.archive t c)
          ≡ drop_reply (handle_transition now t c Machine.archive)
    unfolding handle apply_operation Transitions.archive_warehouse Transitions.archive_store_room
        Transitions.archive_custom_room Warehouse.mark_archived StoreRoom.mark_archived
        CustomRoom.mark_archived
    archive-uniform warehouse = refl
    archive-uniform store_room = refl
    archive-uniform custom_room = refl

    pub freeze-uniform :
        (t : StorageType)
        → handle sv now (Request.freeze t c) ≡ drop_reply (handle_transition now t c Machine.freeze)
    unfolding handle apply_operation Transitions.freeze_warehouse Transitions.freeze_store_room
        Transitions.freeze_custom_room Warehouse.mark_frozen StoreRoom.mark_frozen
        CustomRoom.mark_frozen
    freeze-uniform warehouse = refl
    freeze-uniform store_room = refl
    freeze-uniform custom_room = refl

    pub unfreeze-uniform :
        (t : StorageType)
        → handle sv now (Request.unfreeze t c)
          ≡ drop_reply (handle_transition now t c Machine.unfreeze)
    unfolding handle apply_operation Transitions.unfreeze_warehouse Transitions.unfreeze_store_room
        Transitions.unfreeze_custom_room Warehouse.mark_unfrozen StoreRoom.mark_unfrozen
        CustomRoom.mark_unfrozen
    unfreeze-uniform warehouse = refl
    unfreeze-uniform store_room = refl
    unfreeze-uniform custom_room = refl

    pub restore-uniform :
        (t : StorageType)
        → handle sv now (Request.restore t c) ≡ drop_reply (handle_restore now t c)
    unfolding handle apply_operation Transitions.restore_warehouse Transitions.restore_store_room
        Transitions.restore_custom_room Warehouse.mark_restored StoreRoom.mark_restored
        CustomRoom.mark_restored
    restore-uniform warehouse = refl
    restore-uniform store_room = refl
    restore-uniform custom_room = refl

    pub deletion-uniform :
        (t : StorageType)
        → handle sv now (Request.delete_permanent t c) ≡ drop_reply (handle_deletion now t c)
    unfolding handle Transitions.delete_permanent_warehouse Transitions.delete_permanent_store_room
        Transitions.delete_permanent_custom_room Warehouse.mark_permanently_deleted
        StoreRoom.mark_permanently_deleted CustomRoom.mark_permanently_deleted
    deletion-uniform warehouse = refl
    deletion-uniform store_room = refl
    deletion-uniform custom_room = refl
