-- ===== src/Storage/Capabilities.antt =====
-- A tenant's tier limits as the storage context sees them
-- (infrastructure/adapters/tenant-capabilities.adapter.ts). A limit of -1 is no limit.
use stocka_server.Prelude.{
  ℕ, suc, ◌≡◌, Bool, true, false, not, Option, none, some, arith, if◌then◌else◌,
}
use stocka_server.Prelude.Int.{ℤ, pos, negsuc, eq_ℤ, ltb_ℤ}

-- `TenantCapabilitiesImpl`
pub record Capabilities : Type 0 where
  pub max_warehouses : ℤ
  pub max_custom_rooms : ℤ
  pub max_store_rooms : ℤ

abbrev pub unlimited : ℤ
unlimited = negsuc 0

unfoldable pub can_create_warehouse : Capabilities → Bool
can_create_warehouse c = not (eq_ℤ c.max_warehouses (pos 0))

-- `canCreateMore…`
unfoldable pub can_create_more : ℤ → ℕ → Bool
can_create_more limit count = if eq_ℤ limit unlimited then true else ltb_ℤ (pos count) limit

-- `exceeds…Limit`
unfoldable pub exceeds : ℤ → ℕ → Bool
exceeds limit count = if eq_ℤ limit unlimited then false else ltb_ℤ limit (pos count)

unfoldable pub can_create_more_warehouses : Capabilities → ℕ → Bool
unfolding can_create_more
can_create_more_warehouses c = can_create_more c.max_warehouses

unfoldable pub can_create_more_custom_rooms : Capabilities → ℕ → Bool
unfolding can_create_more
can_create_more_custom_rooms c = can_create_more c.max_custom_rooms

unfoldable pub can_create_more_store_rooms : Capabilities → ℕ → Bool
unfolding can_create_more
can_create_more_store_rooms c = can_create_more c.max_store_rooms

unfoldable pub exceeds_warehouse_limit : Capabilities → ℕ → Bool
unfolding exceeds
exceeds_warehouse_limit c = exceeds c.max_warehouses

unfoldable pub exceeds_store_room_limit : Capabilities → ℕ → Bool
unfolding exceeds
exceeds_store_room_limit c = exceeds c.max_store_rooms

unfoldable pub exceeds_custom_room_limit : Capabilities → ℕ → Bool
unfolding exceeds
exceeds_custom_room_limit c = exceeds c.max_custom_rooms

-- `TenantCapabilitiesAdapter.getCapabilities`, on what the tenant context answered.
unfoldable pub get_capabilities : Option Capabilities → Capabilities
get_capabilities none = record {
  max_warehouses = pos 0;
  max_custom_rooms = pos 1;
  max_store_rooms = pos 1;
}
get_capabilities (some limits) = limits

-- Adding one storage where one more may be created never exceeds the limit: the creation guards
-- and the restore guards agree.
pub can_create_more-exceeds :
    (limit : ℤ) (count : ℕ) → can_create_more limit count ≡ true → exceeds limit (suc count) ≡ false
unfolding can_create_more exceeds
can_create_more-exceeds (pos n) count h = ground arith
can_create_more-exceeds (negsuc n) count h = ground arith
