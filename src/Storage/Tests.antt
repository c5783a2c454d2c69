-- ===== src/Storage/Tests.antt =====
-- Runs of the storage context on concrete storages, and the theorems about it applied to them.
mod Database
mod Commands
mod Calls
use mathlib.Core.List.{Perm}
use stocka_server.Prelude.{
  leb, length, ◌+◌, ◌*◌, ◌≤◌, ℕ, ◌≡◌, refl, Bool, true, text_eq, text_eq_refl, trim, is_some, false,
  ◌⊎◌, inl, inr, Option, none, some, List, [], ◌∷◌, ◌++◌, Text, String, codes, arith,
}
use stocka_server.Prelude.Int.{ℤ, pos}
use stocka_server.Shared.Outcome.{Outcome, ok, err, throw, is_ok}
use stocka_server.Storage.Exceptions.{StorageException, not_found}
use stocka_server.Storage.Model.{
  StorageStatus, active, frozen, archived, status, StorageType, warehouse, store_room, custom_room,
  Common, WarehouseModel, StoreRoomModel, CustomRoomModel, CreateProps,
}
use stocka_server.Storage.Values.{
  create_name, create_icon, create_color, create_address, create_room_type_name, is_hex_color,
}
use stocka_server.Storage.Values.Laws.{IsBounded, IsColor}
use stocka_server.Storage.Events.{StorageEvent, created}
use stocka_server.Storage.Lifecycle.{StorageModel, Aggregate, common_of, subject}
use stocka_server.Storage.Lifecycle.Machine.{
  Operation, archive, freeze, unfreeze, restore, next_status, apply_operation, IsConsistent,
  Implements, SameIdentity, apply_operation-Implements, apply_operation-SameIdentity,
  apply_operation-IsConsistent,
}
use stocka_server.Storage.Lifecycle.Run.{Call, run, final_status, history, run_refines}
use stocka_server.Storage.Update.{UpdateProps}
use stocka_server.Storage.Update.Unchanged.{current}
use stocka_server.Storage.Valid.{IsValidCommon, IsFresh, Untouched}
use stocka_server.Storage.Capabilities.{
  can_create_warehouse, can_create_more_warehouses, can_create_more, exceeds,
  can_create_more-exceeds,
}
use stocka_server.Storage.Services.{Services, Server}
use stocka_server.Storage.Warehouse
use stocka_server.Storage.Warehouse.{Warehouse, warehouse_storage}
use stocka_server.Storage.Warehouse.Laws as WarehouseLaws
use stocka_server.Storage.StoreRoom
use stocka_server.Storage.StoreRoom.{store_room_storage}
use stocka_server.Storage.CustomRoom
use stocka_server.Storage.CustomRoom.{CustomRoom, custom_room_storage}
use stocka_server.Storage.CustomRoom.Laws as CustomRoomLaws
use stocka_server.Storage.Handlers.Creation
use stocka_server.Storage.Handlers.Creation.{CreateCommand}
use stocka_server.Storage.Handlers.Creation.Warehouses.{Created}
use stocka_server.Storage.Handlers.Transitions.{StorageCommand}
use stocka_server.Storage.Handlers.TypeChange.{Metadata, CustomRoomMetadata}
use stocka_server.Storage.Handlers.Requests.{
  Request, TypeChangeRequest, warehouse_to_store_room, handle, handle_type_change,
}
use stocka_server.Storage.Handlers.Requests.Isolation.{foreign_refused}
use stocka_server.Storage.Handlers.Requests.Atomic.{handle_type_change-AllOrNothing, handle-Silent}
use stocka_server.Storage.View.{from_warehouse, from_store_room, from_custom_room}
use stocka_server.Storage.Listing.{
  Container, ListQuery, descending, list_item_views, list_storages, selected_items, matching_items,
}
use stocka_server.Storage.Listing.Summary.{count_of, list_storages_counts}
use stocka_server.Storage.Listing.Pages.{pages, list_storages-pages}
use stocka_server.Storage.Tests.Database.{Rows, services}

abbrev pub uuid : Text
uuid = codes "w1"

abbrev pub tenant : Text
tenant = codes "t1"

abbrev pub actor : Text
actor = codes "a1"

abbrev pub north_common : Common
north_common = record {
  uuid = uuid;
  tenant_uuid = tenant;
  name = codes "North";
  description = none;
  icon = codes "warehouse";
  color = codes "#3b82f6";
  frozen_at = none;
  archived_at = none;
  created_at = 10;
  updated_at = 10;
  id = some 7;
}

abbrev pub north_model : WarehouseModel
north_model = record { common = north_common; address = codes "Street 1" }

abbrev pub north : Warehouse
north = Warehouse.reconstitute north_model

abbrev pub hall : CustomRoom
hall =
    CustomRoom.reconstitute
      (record { common = north_common; room_type = codes "General"; address = none })

-- Two changes of status that the machine allows, with one in between that it refuses.
abbrev calls : List Call
calls =
    record { operation = freeze; now = 20; actor = actor }
    ∷ record { operation = restore; now = 25; actor = actor }
    ∷ record { operation = archive; now = 30; actor = actor }
    ∷ []

run_refines_example :
    (status (common_of (run calls north)) ≡ archived)
    × ((run calls north).uncommitted ≡ [] ++ history (λ actor. subject actor north) active calls)
run_refines_example = run_refines calls north

apply_operation-Implements_example :
    Implements (inl frozen) freeze actor north (apply_operation freeze 20 actor north)
apply_operation-Implements_example = apply_operation-Implements freeze 20 actor north

abbrev any_uuid : Text → Bool
any_uuid _ = true

-- A name that is trimmed on the way in.
abbrev props : CreateProps
props = record {
  uuid = uuid;
  tenant_uuid = tenant;
  name = codes " North ";
  description = none;
  icon = codes "warehouse";
  color = codes "#3b82f6";
}

abbrev trimmed_props : CreateProps
trimmed_props = record props { name = codes "North" }

abbrev made_common : Common
made_common = record north_common { created_at = 20; updated_at = 20; id = none }

abbrev made : CustomRoom
made = record {
  model = record {
    common = made_common;
    room_type = codes "General";
    address = some (codes "Street 1");
  };
  uncommitted =
      created (record { storage_uuid = uuid; tenant_uuid = tenant; actor_uuid = actor }) custom_room
        (codes "North")
      ∷ [];
}

create_custom_room_sound_example :
    IsFresh 20 props made.model.common
    × CustomRoomLaws.IsValid made.model
    × (made.uncommitted
        ≡ created
            (record { storage_uuid = uuid; tenant_uuid = tenant; actor_uuid = actor })
            custom_room
            (codes "North")
          ∷ [])
unfolding CustomRoom.create create_name create_icon create_color create_address
    create_room_type_name is_hex_color trim
create_custom_room_sound_example =
    CustomRoomLaws.create_custom_room_sound any_uuid 20 actor props (codes "General")
      (some (codes "Street 1")) {a = made} refl

short_text : IsBounded 1 100 (codes "North")
unfolding trim
short_text = record { trimmed = refl; long_enough = omega arith; short_enough = omega arith }

icon_text : IsBounded 1 100 (codes "warehouse")
unfolding trim
icon_text = record { trimmed = refl; long_enough = omega arith; short_enough = omega arith }

street : IsBounded 1 200 (codes "Street 1")
unfolding trim
street = record { trimmed = refl; long_enough = omega arith; short_enough = omega arith }

blue : IsColor (codes "#3b82f6")
unfolding trim is_hex_color
blue = record { trimmed = refl; hexadecimal = refl }

general : IsBounded 1 50 (codes "General")
unfolding trim
general = record { trimmed = refl; long_enough = omega arith; short_enough = omega arith }

warehouse_for_type_change_total_example :
    Warehouse.for_type_change any_uuid 20 trimmed_props (codes "Street 1")
    ≡ ok (Warehouse.reconstitute (record { common = made_common; address = codes "Street 1" }))
warehouse_for_type_change_total_example =
    WarehouseLaws.warehouse_for_type_change_total any_uuid 20 trimmed_props (codes "Street 1") refl
      refl short_text tt icon_text blue street

north_common-IsValidCommon : IsValidCommon north_common
north_common-IsValidCommon = record {
  name = short_text;
  description = tt;
  icon = icon_text;
  color = blue;
}

hall-IsValid : CustomRoomLaws.IsValid hall.model
hall-IsValid = record { common = north_common-IsValidCommon; room_type = general; address = tt }

-- A new name, and an address that is too long to be accepted.
abbrev renamed : UpdateProps
renamed = record { name = some (codes "South"); description = none; icon = none; color = none }

update_custom_room-StillValid_example :
    CustomRoomLaws.StillValid hall (CustomRoom.update 30 actor renamed none none hall).1
    × (((CustomRoom.update 30 actor renamed none none hall).0 ≡ ok tt)
        ⊎ ((CustomRoom.update 30 actor renamed none none hall).1.model ≡ hall.model))
update_custom_room-StillValid_example =
    CustomRoomLaws.update_custom_room-StillValid 30 actor renamed none none hall hall-IsValid

update_custom_room_unchanged_example :
    CustomRoom.update 30 actor (current north_common) (some (codes "General")) (some none) hall
    ≡ (ok tt, hall)
update_custom_room_unchanged_example =
    CustomRoomLaws.update_custom_room_unchanged 30 actor hall hall-IsValid
