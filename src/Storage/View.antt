-- ===== src/Storage/View.antt =====
-- The read-side view of a storage (application/mappers/storage-item-view.mapper.ts).
use stocka_server.Prelude.{ℕ, Option, none, some, Text}
use stocka_server.Storage.Model.{
  Common, WarehouseModel, StoreRoomModel, CustomRoomModel, StorageStatus, StorageType, status,
  warehouse, store_room, custom_room,
}
use stocka_server.Storage.Lifecycle.{Aggregate}

-- `StorageItemView`
pub record ItemView : Type 0 where
  pub uuid : Text
  pub type : StorageType
  pub name : Text
  pub description : Option Text
  pub icon : Text
  pub color : Text
  pub address : Option Text
  pub archived_at : Option ℕ
  pub frozen_at : Option ℕ
  pub status : StorageStatus
  pub created_at : ℕ
  pub updated_at : ℕ
  pub room_type : Option Text

abbrev item_view : StorageType → Option Text → Option Text → Common → ItemView
item_view type address room_type m = record {
  uuid = m.uuid;
  type = type;
  name = m.name;
  description = m.description;
  icon = m.icon;
  color = m.color;
  address = address;
  archived_at = m.archived_at;
  frozen_at = m.frozen_at;
  status = status m;
  created_at = m.created_at;
  updated_at = m.updated_at;
  room_type = room_type;
}

unfoldable pub from_warehouse : Aggregate WarehouseModel → ItemView
from_warehouse a = item_view warehouse (some a.model.address) none a.model.common

unfoldable pub from_store_room : Aggregate StoreRoomModel → ItemView
from_store_room a = item_view store_room a.model.address none a.model.common

unfoldable pub from_custom_room : Aggregate CustomRoomModel → ItemView
from_custom_room a = item_view custom_room a.model.address (some a.model.room_type) a.model.common
