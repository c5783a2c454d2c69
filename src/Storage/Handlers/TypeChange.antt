-- ===== src/Storage/Handlers/TypeChange.antt =====
-- The type-change handlers (application/commands/change-*-to-*).
use stocka_server.Prelude.{ℕ, Option, none, some, [], ◌∷◌, or_else, Text, codes}
use stocka_server.Shared.Outcome.{Outcome, ◌>>=◌, ◌>>◌, pure, refuse_if, refuse_on, lift}
use stocka_server.Storage.Exceptions.{
  StorageException, type_locked_while_archived, type_locked_while_frozen,
}
use stocka_server.Storage.Model.{
  Common, StorageType, type_name, warehouse, store_room, custom_room, CreateProps, is_archived,
  is_frozen,
}
use stocka_server.Storage.Events.{type_changed}
use stocka_server.Storage.Lifecycle.{StorageModel, Aggregate, common_of}
use stocka_server.Storage.Services.{
  Repository, Services, Handler, read, write, publish, execute, find_own, storage_id, check_name,
}
use stocka_server.Storage.Policy.{
  Guard, assert_warehouse_capacity, assert_store_room_capacity, assert_custom_room_capacity,
  assert_address_for_warehouse,
}
use stocka_server.Storage.Handlers.Transitions.{StorageCommand}
use stocka_server.Storage.Warehouse
use stocka_server.Storage.Warehouse.{warehouse_storage}
use stocka_server.Storage.StoreRoom
use stocka_server.Storage.StoreRoom.{store_room_storage}
use stocka_server.Storage.CustomRoom
use stocka_server.Storage.CustomRoom.{custom_room_storage}

-- `ConvertToWarehouseMetadata` and `ConvertToStoreRoomMetadata`: `none` is a field left out, the
-- inner `none` is `null`.
pub record Metadata : Type 0 where
  pub name : Option Text
  pub description : Option (Option Text)
  pub address : Option (Option Text)

-- `ConvertToCustomRoomMetadata`
pub record CustomRoomMetadata : Type 0 where
  pub metadata : Metadata
  pub open metadata use *
  pub room_type : Option Text
  pub icon : Option Text
  pub color : Option Text

-- `DEFAULT_ROOM_TYPE`
abbrev pub default_room_type : Text
default_room_type = codes "General"

-- The address of the target: the source's where the metadata has none.
abbrev pub effective_address : Metadata → Option Text → Option Text
effective_address metadata source = or_else metadata.address source

-- The props of the target's `forTypeChange`.
abbrev pub target_props : StorageCommand → Metadata → Common → Text → Text → CreateProps
target_props c metadata source icon color = record {
  uuid = c.storage_uuid;
  tenant_uuid = c.tenant_uuid;
  name = or_else metadata.name source.name;
  description = or_else metadata.description source.description;
  icon = icon;
  color = color;
}

-- A guard that needs no database.
abbrev pub no_guard : Option StorageException
no_guard = none

module _ {W : Type 0} (sv : Services W) where
  -- The rows: the source's goes and the target's comes, in one transaction.
  unfoldable pub swap_rows :
      {M N : Type 0}
      → Repository W M
      → Repository W N
      → Text
      → Aggregate N
      → ℕ
      → Handler W (Unit {0})
  swap_rows source target storage_uuid made id = write (
      execute sv
        (source.delete_by_uuid storage_uuid >> (target.save made id >>= λ _saved. pure tt)))

  -- The shape of the six handlers, from the source's aggregate on.
  unfoldable pub convert :
      {M N : Type 0} ⦃k : StorageModel M⦄
      → Repository W M
      → Repository W N
      → StorageType
      → StorageType
      → StorageCommand
      → Metadata
      → Option StorageException
      → (Text → Guard W)
      → Outcome StorageException (Aggregate N)
      → Aggregate M
      → Handler W Text
  convert source target from to c metadata address_error capacity made found = do
    refuse_if (is_archived (common_of found)) (type_locked_while_archived c.storage_uuid)
    refuse_if (is_frozen (common_of found)) (type_locked_while_frozen c.storage_uuid)
    refuse_on address_error
    capacity_error ← read (capacity c.tenant_uuid)
    refuse_on capacity_error
    check_name sv c.tenant_uuid metadata.name (common_of found).name
    id ← storage_id sv c.storage_uuid c.tenant_uuid
    aggregate ← lift made
    swap_rows source target c.storage_uuid aggregate id
    publish (
        type_changed
          (record {
            storage_uuid = c.storage_uuid;
            tenant_uuid = c.tenant_uuid;
            actor_uuid = c.actor_uuid;
          })
          (type_name from) (type_name to)
        ∷ [])
    pure c.storage_uuid

  -- The address that the warehouse will have: an absent one counts as the empty text.
  unfoldable pub change_store_room_to_warehouse : ℕ → StorageCommand → Metadata → Handler W Text
  change_store_room_to_warehouse now c metadata = do
    found ← find_own sv.store_rooms c.storage_uuid c.tenant_uuid
    let address = or_else (effective_address metadata found.model.address) (codes "")
    convert sv.store_rooms sv.warehouses store_room warehouse c metadata
        (assert_address_for_warehouse address c.storage_uuid) (assert_warehouse_capacity sv)
        (Warehouse.for_type_change sv.validate now
          (target_props c metadata found.model.common (codes "warehouse") (codes "#3b82f6"))
          address)
        found

  -- The address that the warehouse will have: an absent one counts as the empty text.
  unfoldable pub change_custom_room_to_warehouse : ℕ → StorageCommand → Metadata → Handler W Text
  change_custom_room_to_warehouse now c metadata = do
    found ← find_own sv.custom_rooms c.storage_uuid c.tenant_uuid
    let address = or_else (effective_address metadata found.model.address) (codes "")
    convert sv.custom_rooms sv.warehouses custom_room warehouse c metadata
        (assert_address_for_warehouse address c.storage_uuid) (assert_warehouse_capacity sv)
        (Warehouse.for_type_change sv.validate now
          (target_props c metadata found.model.common (codes "warehouse") (codes "#3b82f6"))
          address)
        found

  unfoldable pub change_warehouse_to_store_room : ℕ → StorageCommand → Metadata → Handler W Text
  change_warehouse_to_store_room now c metadata = do
    found ← find_own sv.warehouses c.storage_uuid c.tenant_uuid
    convert sv.warehouses sv.store_rooms warehouse store_room c metadata no_guard
        (assert_store_room_capacity sv)
        (StoreRoom.for_type_change sv.validate now
          (target_props c metadata found.model.common (codes "inventory_2") (codes "#d97706"))
          (effective_address metadata (some found.model.address)))
        found

  unfoldable pub change_custom_room_to_store_room : ℕ → StorageCommand → Metadata → Handler W Text
  change_custom_room_to_store_room now c metadata = do
    found ← find_own sv.custom_rooms c.storage_uuid c.tenant_uuid
    convert sv.custom_rooms sv.store_rooms custom_room store_room c metadata no_guard
        (assert_store_room_capacity sv)
        (StoreRoom.for_type_change sv.validate now
          (target_props c metadata found.model.common (codes "inventory_2") (codes "#d97706"))
          (effective_address metadata found.model.address))
        found

  unfoldable pub change_warehouse_to_custom_room :
      ℕ → StorageCommand → CustomRoomMetadata → Handler W Text
  change_warehouse_to_custom_room now c metadata = do
    found ← find_own sv.warehouses c.storage_uuid c.tenant_uuid
    convert sv.warehouses sv.custom_rooms warehouse custom_room c metadata.metadata no_guard
        (assert_custom_room_capacity sv)
        (CustomRoom.for_type_change sv.validate now
          (target_props c metadata.metadata found.model.common
            (or_else metadata.icon (codes "other_houses"))
            (or_else metadata.color (codes "#6B7280")))
          (or_else metadata.room_type default_room_type)
          (effective_address metadata.metadata (some found.model.address)))
        found

  unfoldable pub change_store_room_to_custom_room :
      ℕ → StorageCommand → CustomRoomMetadata → Handler W Text
  change_store_room_to_custom_room now c metadata = do
    found ← find_own sv.store_rooms c.storage_uuid c.tenant_uuid
    convert sv.store_rooms sv.custom_rooms store_room custom_room c metadata.metadata no_guard
        (assert_custom_room_capacity sv)
        (CustomRoom.for_type_change sv.validate now
          (target_props c metadata.metadata found.model.common
            (or_else metadata.icon (codes "other_houses"))
            (or_else metadata.color (codes "#6B7280")))
          (or_else metadata.room_type default_room_type)
          (effective_address metadata.metadata found.model.address))
        found
