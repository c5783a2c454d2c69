-- ===== src/Storage/Policy.antt =====
-- `StorageTypeChangePolicy` (application/services/storage-type-change.policy.ts).
use stocka_server.Prelude.{
  Bool, true, false, not, Option, none, some, if◌then◌else◌, length, ◌==◌, Text, trim,
}
use stocka_server.Shared.Outcome.{ok, and_then}
use stocka_server.Storage.Exceptions.{
  StorageException, warehouse_requires_tier_upgrade, store_room_limit_reached,
  custom_room_limit_reached, address_required_for_warehouse,
}
use stocka_server.Storage.Capabilities.{
  can_create_warehouse, can_create_more_warehouses, can_create_more_store_rooms,
  can_create_more_custom_rooms, exceeds_warehouse_limit, exceeds_store_room_limit,
  exceeds_custom_room_limit,
}
use stocka_server.Storage.Services.{Query, Services}

-- The exception to return, or `none` for `null`.
abbrev pub Guard : Type 0 → Type 0
Guard W = Query W (Option StorageException)

abbrev refuse : Bool → StorageException → Option StorageException
refuse true e = some e
refuse false e = none

module _ {W : Type 0} (sv : Services W) where
  unfoldable pub assert_warehouse_capacity : Text → Guard W
  assert_warehouse_capacity tenant w = and_then (sv.capabilities tenant w) λ c.
      if not (can_create_warehouse c)
      then ok (some warehouse_requires_tier_upgrade)
      else (and_then (sv.warehouses.count tenant w) λ count.
          ok (refuse (not (can_create_more_warehouses c count)) warehouse_requires_tier_upgrade))

  unfoldable pub assert_store_room_capacity : Text → Guard W
  assert_store_room_capacity tenant w = and_then (sv.capabilities tenant w) λ c.
      and_then (sv.store_rooms.count tenant w)
        λ count. ok (refuse (not (can_create_more_store_rooms c count)) store_room_limit_reached)

  unfoldable pub assert_custom_room_capacity : Text → Guard W
  assert_custom_room_capacity tenant w = and_then (sv.capabilities tenant w) λ c.
      and_then (sv.custom_rooms.count tenant w)
        λ count. ok (refuse (not (can_create_more_custom_rooms c count)) custom_room_limit_reached)

  unfoldable pub assert_warehouse_can_restore : Text → Guard W
  assert_warehouse_can_restore tenant w = and_then (sv.capabilities tenant w) λ c.
      if not (can_create_warehouse c)
      then ok (some warehouse_requires_tier_upgrade)
      else (and_then (sv.warehouses.count tenant w)
          λ count. ok (refuse (exceeds_warehouse_limit c count) warehouse_requires_tier_upgrade))

  unfoldable pub assert_store_room_can_restore : Text → Guard W
  assert_store_room_can_restore tenant w = and_then (sv.capabilities tenant w) λ c.
      and_then (sv.store_rooms.count tenant w)
        λ count. ok (refuse (exceeds_store_room_limit c count) store_room_limit_reached)

  unfoldable pub assert_custom_room_can_restore : Text → Guard W
  assert_custom_room_can_restore tenant w = and_then (sv.capabilities tenant w) λ c.
      and_then (sv.custom_rooms.count tenant w)
        λ count. ok (refuse (exceeds_custom_room_limit c count) custom_room_limit_reached)

-- `assertAddressForWarehouse`
unfoldable pub assert_address_for_warehouse : Text → Text → Option StorageException
assert_address_for_warehouse address storage_uuid =
    refuse (length (trim address) == 0) (address_required_for_warehouse storage_uuid)
