-- ===== src/Storage/Handlers/Creation.antt =====
-- The create handlers (application/commands/create-*). `fresh` is the `uuidV7()` of the call.
pub mod Laws
pub mod Warehouses
use stocka_server.Prelude.{ℕ, not, Option, none, some, or_else, Text, codes}
use stocka_server.Shared.Outcome.{Outcome, throw, ◌>>=◌, ◌>>◌, pure, refuse_if, lift}
use stocka_server.Storage.Exceptions.{
  StorageException, name_already_exists, container_without_id, warehouse_requires_tier_upgrade,
  store_room_limit_reached, custom_room_limit_reached,
}
use stocka_server.Storage.Model.{StorageType, warehouse, store_room, custom_room, CreateProps}
use stocka_server.Storage.Lifecycle.{StorageModel, Aggregate, common_of}
use stocka_server.Storage.Capabilities.{
  can_create_warehouse, can_create_more_warehouses, can_create_more_store_rooms,
  can_create_more_custom_rooms,
}
use stocka_server.Storage.Services.{Repository, Services, Handler, read, write, publish}
use stocka_server.Storage.Warehouse
use stocka_server.Storage.Warehouse.{warehouse_storage}
use stocka_server.Storage.StoreRoom
use stocka_server.Storage.StoreRoom.{store_room_storage}
use stocka_server.Storage.CustomRoom
use stocka_server.Storage.CustomRoom.{custom_room_storage}

-- `resolveStorageIcon` and `resolveStorageColor` (domain/services/storage-icon-color.resolver.ts)
unfoldable pub resolve_storage_icon : StorageType → Option Text → Text
resolve_storage_icon warehouse _ = codes "warehouse"
resolve_storage_icon store_room _ = codes "inventory_2"
resolve_storage_icon custom_room icon = or_else icon (codes "other_houses")

unfoldable pub resolve_storage_color : StorageType → Option Text → Text
resolve_storage_color warehouse _ = codes "#3b82f6"
resolve_storage_color store_room _ = codes "#d97706"
resolve_storage_color custom_room color = or_else color (codes "#6B7280")

pub record CreateCommand : Type 0 where
  pub tenant_uuid : Text
  pub actor_uuid : Text
  pub name : Text
  pub description : Option Text

-- The props of the aggregate's `create`.
abbrev pub create_props :
    StorageType → Text → CreateCommand → Option Text → Option Text → CreateProps
create_props type fresh c icon color = record {
  uuid = fresh;
  tenant_uuid = c.tenant_uuid;
  name = c.name;
  description = c.description;
  icon = resolve_storage_icon type icon;
  color = resolve_storage_color type color;
}

module _ {W : Type 0} where
  -- `if (container.id === undefined) throw ...`
  abbrev pub require_container : Option ℕ → Handler W ℕ
  require_container none = lift (throw container_without_id)
  require_container (some id) = pure id

module _ {W : Type 0} (sv : Services W) where
  -- What follows the tier's guards: the name guard, the container, the aggregate, its row, its
  -- events.
  unfoldable pub store_new :
      {M : Type 0} ⦃k : StorageModel M⦄
      → Repository W M
      → CreateCommand
      → Outcome StorageException (Aggregate M)
      → Handler W Text
  store_new repo c creation = do
    name_exists ← read (sv.storages.exists_active_name c.tenant_uuid c.name)
    refuse_if name_exists (name_already_exists c.name)
    container ← write (sv.storages.find_or_create c.tenant_uuid)
    id ← require_container container
    made ← lift creation
    _saved ← write (repo.save made id)
    publish made.uncommitted
    pure (common_of made).uuid

  unfoldable pub create_warehouse : ℕ → Text → CreateCommand → Text → Handler W Text
  create_warehouse now fresh c address = do
    capabilities ← read (sv.capabilities c.tenant_uuid)
    refuse_if (not (can_create_warehouse capabilities)) warehouse_requires_tier_upgrade
    count ← read (sv.warehouses.count c.tenant_uuid)
    refuse_if (not (can_create_more_warehouses capabilities count)) warehouse_requires_tier_upgrade
    store_new sv.warehouses c (
        Warehouse.create sv.validate now c.actor_uuid (create_props warehouse fresh c none none)
          address)

  unfoldable pub create_store_room : ℕ → Text → CreateCommand → Option Text → Handler W Text
  create_store_room now fresh c address = do
    capabilities ← read (sv.capabilities c.tenant_uuid)
    count ← read (sv.store_rooms.count c.tenant_uuid)
    refuse_if (not (can_create_more_store_rooms capabilities count)) store_room_limit_reached
    store_new sv.store_rooms c (
        StoreRoom.create sv.validate now c.actor_uuid (create_props store_room fresh c none none)
          address)

  unfoldable pub create_custom_room :
      ℕ → Text → CreateCommand → Option Text → Option Text → Text → Option Text → Handler W Text
  create_custom_room now fresh c icon color room_type address = do
    capabilities ← read (sv.capabilities c.tenant_uuid)
    count ← read (sv.custom_rooms.count c.tenant_uuid)
    refuse_if (not (can_create_more_custom_rooms capabilities count)) custom_room_limit_reached
    store_new sv.custom_rooms c (
        CustomRoom.create sv.validate now c.actor_uuid (create_props custom_room fresh c icon color)
          room_type address)
