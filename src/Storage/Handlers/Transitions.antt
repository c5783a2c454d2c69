-- ===== src/Storage/Handlers/Transitions.antt =====
-- The handlers that archive, freeze, unfreeze, restore and delete a storage
-- (application/commands/{archive,freeze,unfreeze,restore,delete-permanent}-*).
use stocka_server.Prelude.{ℕ, Text}
use stocka_server.Shared.Outcome.{◌>>=◌, ◌>>◌, pure, refuse_on}
use stocka_server.Storage.Lifecycle.{StorageModel, Aggregate, Transition}
use stocka_server.Storage.Services.{
  Repository, Services, Handler, read, write, publish, find_own, storage_id, after_method,
}
use stocka_server.Storage.Policy.{
  Guard, assert_warehouse_can_restore, assert_store_room_can_restore,
  assert_custom_room_can_restore,
}
use stocka_server.Storage.View.{ItemView, from_warehouse, from_store_room, from_custom_room}
use stocka_server.Storage.Warehouse
use stocka_server.Storage.Warehouse.{warehouse_storage}
use stocka_server.Storage.StoreRoom
use stocka_server.Storage.StoreRoom.{store_room_storage}
use stocka_server.Storage.CustomRoom
use stocka_server.Storage.CustomRoom.{custom_room_storage}

pub record StorageCommand : Type 0 where
  pub storage_uuid : Text
  pub tenant_uuid : Text
  pub actor_uuid : Text

module _ {W : Type 0} (sv : Services W) where
  -- What the handlers do once the aggregate is at hand: the method, then the container's id, then
  -- the row, then the events, then the view of what was saved.
  unfoldable pub store_transition :
      {M : Type 0}
      → Repository W M
      → (Aggregate M → ItemView)
      → StorageCommand
      → Transition M
      → Handler W ItemView
  store_transition repo view c transition = do
    changed ← after_method transition
    id ← storage_id sv c.storage_uuid c.tenant_uuid
    saved ← write (repo.save changed id)
    publish changed.uncommitted
    pure (view saved)

  -- The shape of the archive, freeze and unfreeze handlers.
  unfoldable pub transition_handler :
      {M : Type 0} ⦃k : StorageModel M⦄
      → Repository W M
      → (Aggregate M → ItemView)
      → (Text → Aggregate M → Transition M)
      → StorageCommand
      → Handler W ItemView
  transition_handler repo view method c = do
    found ← find_own repo c.storage_uuid c.tenant_uuid
    store_transition repo view c (method c.actor_uuid found)

  -- The shape of the restore handlers: the tier's capacity is checked before the method.
  unfoldable pub restore_handler :
      {M : Type 0} ⦃k : StorageModel M⦄
      → Repository W M
      → (Aggregate M → ItemView)
      → (Text → Guard W)
      → (Text → Aggregate M → Transition M)
      → StorageCommand
      → Handler W ItemView
  restore_handler repo view guard method c = do
    found ← find_own repo c.storage_uuid c.tenant_uuid
    capacity_error ← read (guard c.tenant_uuid)
    refuse_on capacity_error
    store_transition repo view c (method c.actor_uuid found)

  -- The shape of the handlers that delete for good.
  unfoldable pub delete_handler :
      {M : Type 0} ⦃k : StorageModel M⦄
      → Repository W M
      → (Text → Aggregate M → Transition M)
      → StorageCommand
      → Handler W (Unit {0})
  delete_handler repo method c = do
    found ← find_own repo c.storage_uuid c.tenant_uuid
    changed ← after_method (method c.actor_uuid found)
    write (repo.delete_by_uuid c.storage_uuid)
    publish changed.uncommitted

  unfoldable pub archive_warehouse : ℕ → StorageCommand → Handler W ItemView
  archive_warehouse now =
      transition_handler sv.warehouses from_warehouse (Warehouse.mark_archived now)

  unfoldable pub freeze_warehouse : ℕ → StorageCommand → Handler W ItemView
  freeze_warehouse now = transition_handler sv.warehouses from_warehouse (Warehouse.mark_frozen now)

  unfoldable pub unfreeze_warehouse : ℕ → StorageCommand → Handler W ItemView
  unfreeze_warehouse now =
      transition_handler sv.warehouses from_warehouse (Warehouse.mark_unfrozen now)

  unfoldable pub restore_warehouse : ℕ → StorageCommand → Handler W ItemView
  restore_warehouse now =
      restore_handler sv.warehouses from_warehouse (assert_warehouse_can_restore sv)
        (Warehouse.mark_restored now)

  unfoldable pub delete_permanent_warehouse : StorageCommand → Handler W (Unit {0})
  delete_permanent_warehouse = delete_handler sv.warehouses Warehouse.mark_permanently_deleted

  unfoldable pub archive_store_room : ℕ → StorageCommand → Handler W ItemView
  archive_store_room now =
      transition_handler sv.store_rooms from_store_room (StoreRoom.mark_archived now)

  unfoldable pub freeze_store_room : ℕ → StorageCommand → Handler W ItemView
  freeze_store_room now =
      transition_handler sv.store_rooms from_store_room (StoreRoom.mark_frozen now)

  unfoldable pub unfreeze_store_room : ℕ → StorageCommand → Handler W ItemView
  unfreeze_store_room now =
      transition_handler sv.store_rooms from_store_room (StoreRoom.mark_unfrozen now)

  unfoldable pub restore_store_room : ℕ → StorageCommand → Handler W ItemView
  restore_store_room now =
      restore_handler sv.store_rooms from_store_room (assert_store_room_can_restore sv)
        (StoreRoom.mark_restored now)

  unfoldable pub delete_permanent_store_room : StorageCommand → Handler W (Unit {0})
  delete_permanent_store_room = delete_handler sv.store_rooms StoreRoom.mark_permanently_deleted

  unfoldable pub archive_custom_room : ℕ → StorageCommand → Handler W ItemView
  archive_custom_room now =
      transition_handler sv.custom_rooms from_custom_room (CustomRoom.mark_archived now)

  unfoldable pub freeze_custom_room : ℕ → StorageCommand → Handler W ItemView
  freeze_custom_room now =
      transition_handler sv.custom_rooms from_custom_room (CustomRoom.mark_frozen now)

  unfoldable pub unfreeze_custom_room : ℕ → StorageCommand → Handler W ItemView
  unfreeze_custom_room now =
      transition_handler sv.custom_rooms from_custom_room (CustomRoom.mark_unfrozen now)

  unfoldable pub restore_custom_room : ℕ → StorageCommand → Handler W ItemView
  restore_custom_room now =
      restore_handler sv.custom_rooms from_custom_room (assert_custom_room_can_restore sv)
        (CustomRoom.mark_restored now)

  unfoldable pub delete_permanent_custom_room : StorageCommand → Handler W (Unit {0})
  delete_permanent_custom_room = delete_handler sv.custom_rooms CustomRoom.mark_permanently_deleted
