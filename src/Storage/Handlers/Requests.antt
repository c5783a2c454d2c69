-- ===== src/Storage/Handlers/Requests.antt =====
-- Every command about one stored storage, as the command bus hands it to its handler. The reply is
-- dropped: what counts here is how the handler ends and what it leaves.
pub mod Uniform
pub mod Isolation
pub mod Atomic
pub mod Invariant
use stocka_server.Prelude.{ℕ, ◌≡◌, Bool, false, Option, none, some, Text, text_eq}
use stocka_server.Shared.Outcome.{Outcome, ok, err, throw, Act, ◌>>=◌, pure}
use stocka_server.Storage.Exceptions.{StorageException}
use stocka_server.Storage.Model.{StorageType, warehouse, store_room, custom_room}
use stocka_server.Storage.Update.{UpdateProps}
use stocka_server.Storage.Lifecycle.{StorageModel, Aggregate, common_of}
use stocka_server.Storage.Warehouse.{warehouse_storage}
use stocka_server.Storage.StoreRoom.{store_room_storage}
use stocka_server.Storage.CustomRoom.{custom_room_storage}
use stocka_server.Storage.Services.{Services, Handler}
use stocka_server.Storage.Handlers.Transitions
use stocka_server.Storage.Handlers.Transitions.{StorageCommand}
use stocka_server.Storage.Handlers.Editing
use stocka_server.Storage.Handlers.TypeChange
use stocka_server.Storage.Handlers.TypeChange.{Metadata, CustomRoomMetadata}

pub data TypeChangeRequest : Type 0 where
  store_room_to_warehouse custom_room_to_warehouse : StorageCommand → Metadata → TypeChangeRequest
  warehouse_to_store_room custom_room_to_store_room : StorageCommand → Metadata → TypeChangeRequest
  warehouse_to_custom_room store_room_to_custom_room :
      StorageCommand → CustomRoomMetadata → TypeChangeRequest

pub data Request : Type 0 where
  archive freeze unfreeze restore delete_permanent : StorageType → StorageCommand → Request
  update_warehouse : StorageCommand → Option Text → Option (Option Text) → Option Text → Request
  update_store_room :
      StorageCommand → Option Text → Option (Option Text) → Option (Option Text) → Request
  update_custom_room : StorageCommand → UpdateProps → Option Text → Option (Option Text) → Request
  change_type : TypeChangeRequest → Request

-- The storage that a request is about, and the table that its handler reads.
abbrev pub command_of : Request → StorageCommand
command_of (archive _ c) = c
command_of (freeze _ c) = c
command_of (unfreeze _ c) = c
command_of (restore _ c) = c
command_of (delete_permanent _ c) = c
command_of (update_warehouse c _ _ _) = c
command_of (update_store_room c _ _ _) = c
command_of (update_custom_room c _ _ _) = c
command_of (Request.change_type (store_room_to_warehouse c _)) = c
command_of (Request.change_type (custom_room_to_warehouse c _)) = c
command_of (Request.change_type (warehouse_to_store_room c _)) = c
command_of (Request.change_type (custom_room_to_store_room c _)) = c
command_of (Request.change_type (warehouse_to_custom_room c _)) = c
command_of (Request.change_type (store_room_to_custom_room c _)) = c

abbrev pub source_of : Request → StorageType
source_of (archive t _) = t
source_of (freeze t _) = t
source_of (unfreeze t _) = t
source_of (restore t _) = t
source_of (delete_permanent t _) = t
source_of (update_warehouse _ _ _ _) = warehouse
source_of (update_store_room _ _ _ _) = store_room
source_of (update_custom_room _ _ _ _) = custom_room
source_of (Request.change_type (store_room_to_warehouse _ _)) = store_room
source_of (Request.change_type (custom_room_to_warehouse _ _)) = custom_room
source_of (Request.change_type (warehouse_to_store_room _ _)) = warehouse
source_of (Request.change_type (custom_room_to_store_room _ _)) = custom_room
source_of (Request.change_type (warehouse_to_custom_room _ _)) = warehouse
source_of (Request.change_type (store_room_to_custom_room _ _)) = store_room

abbrev pub drop_reply : {W A : Type 0} → Handler W A → Handler W (Unit {0})
drop_reply m = m >>= λ _reply. pure tt

module _ {W : Type 0} (sv : Services W) (now : ℕ) where
  unfoldable pub handle_type_change : TypeChangeRequest → Handler W (Unit {0})
  handle_type_change (store_room_to_warehouse c metadata) =
      drop_reply (TypeChange.change_store_room_to_warehouse sv now c metadata)
  handle_type_change (custom_room_to_warehouse c metadata) =
      drop_reply (TypeChange.change_custom_room_to_warehouse sv now c metadata)
  handle_type_change (warehouse_to_store_room c metadata) =
      drop_reply (TypeChange.change_warehouse_to_store_room sv now c metadata)
  handle_type_change (custom_room_to_store_room c metadata) =
      drop_reply (TypeChange.change_custom_room_to_store_room sv now c metadata)
  handle_type_change (warehouse_to_custom_room c metadata) =
      drop_reply (TypeChange.change_warehouse_to_custom_room sv now c metadata)
  handle_type_change (store_room_to_custom_room c metadata) =
      drop_reply (TypeChange.change_store_room_to_custom_room sv now c metadata)

  unfoldable pub handle : Request → Handler W (Unit {0})
  handle (archive warehouse c) = drop_reply (Transitions.archive_warehouse sv now c)
  handle (archive store_room c) = drop_reply (Transitions.archive_store_room sv now c)
  handle (archive custom_room c) = drop_reply (Transitions.archive_custom_room sv now c)
  handle (freeze warehouse c) = drop_reply (Transitions.freeze_warehouse sv now c)
  handle (freeze store_room c) = drop_reply (Transitions.freeze_store_room sv now c)
  handle (freeze custom_room c) = drop_reply (Transitions.freeze_custom_room sv now c)
  handle (unfreeze warehouse c) = drop_reply (Transitions.unfreeze_warehouse sv now c)
  handle (unfreeze store_room c) = drop_reply (Transitions.unfreeze_store_room sv now c)
  handle (unfreeze custom_room c) = drop_reply (Transitions.unfreeze_custom_room sv now c)
  handle (restore warehouse c) = drop_reply (Transitions.restore_warehouse sv now c)
  handle (restore store_room c) = drop_reply (Transitions.restore_store_room sv now c)
  handle (restore custom_room c) = drop_reply (Transitions.restore_custom_room sv now c)
  handle (delete_permanent warehouse c) = drop_reply (Transitions.delete_permanent_warehouse sv c)
  handle (delete_permanent store_room c) = drop_reply (Transitions.delete_permanent_store_room sv c)
  handle (delete_permanent custom_room c) =
      drop_reply (Transitions.delete_permanent_custom_room sv c)
  handle (update_warehouse c name description address) =
      drop_reply (Editing.update_warehouse sv now c name description address)
  handle (update_store_room c name description address) =
      drop_reply (Editing.update_store_room sv now c name description address)
  handle (update_custom_room c props room_type address) =
      drop_reply (Editing.update_custom_room sv now c props room_type address)
  handle (Request.change_type req) = handle_type_change req

-- The answer of a table about a storage that is not the tenant's: no row, or a row of another.
abbrev pub IsForeign :
    {M : Type 0} ⦃k : StorageModel M⦄
    → Text
    → Outcome StorageException (Option (Aggregate M))
    → Type 0
IsForeign tenant (ok none) = Unit
IsForeign tenant (ok (some a)) = text_eq (common_of a).tenant_uuid tenant ≡ false
IsForeign tenant (err _) = ⊥
IsForeign tenant (throw _) = ⊥

module _ {W : Type 0} (sv : Services W) where
  abbrev pub NotOwned : StorageType → StorageCommand → W → Type 0
  NotOwned warehouse c w = IsForeign c.tenant_uuid (sv.warehouses.find_by_uuid c.storage_uuid w)
  NotOwned store_room c w = IsForeign c.tenant_uuid (sv.store_rooms.find_by_uuid c.storage_uuid w)
  NotOwned custom_room c w = IsForeign c.tenant_uuid (sv.custom_rooms.find_by_uuid c.storage_uuid w)
