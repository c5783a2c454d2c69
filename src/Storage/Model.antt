-- ===== src/Storage/Model.antt =====
-- The immutable models of the storage context (domain/models, domain/enums) and what they share.
-- A date is its number of milliseconds; `now` stands for the readings of `new Date()` in a call.
use stocka_server.Prelude.{
  ℕ, Bool, ◌&&◌, not, Option, none, some, [], ◌∷◌, if◌then◌else◌, is_some, or_else, Text, codes,
  trim,
}
use stocka_server.Shared.Outcome.{Outcome, ok, throw, and_then}
use stocka_server.Storage.Exceptions.{StorageException, invalid_uuid}
use stocka_server.Storage.Values.{
  create_name, create_description, create_icon, create_color, create_address, create_room_type_name,
}

pub data StorageStatus : Type 0 where
  active frozen archived : StorageStatus

pub data StorageType : Type 0 where
  custom_room store_room warehouse : StorageType

-- The enum's string values.
abbrev pub type_name : StorageType → Text
type_name custom_room = codes "CUSTOM_ROOM"
type_name store_room = codes "STORE_ROOM"
type_name warehouse = codes "WAREHOUSE"

-- The fields that the three models have in common.
pub record Common : Type 0 where
  pub uuid : Text
  pub tenant_uuid : Text
  pub name : Text
  pub description : Option Text
  pub icon : Text
  pub color : Text
  pub frozen_at : Option ℕ
  pub archived_at : Option ℕ
  pub created_at : ℕ
  pub updated_at : ℕ
  pub id : Option ℕ

pub record WarehouseModel : Type 0 where
  pub common : Common
  pub open common use *
  pub address : Text

pub record StoreRoomModel : Type 0 where
  pub common : Common
  pub open common use *
  pub address : Option Text

pub record CustomRoomModel : Type 0 where
  pub common : Common
  pub open common use *
  pub room_type : Text
  pub address : Option Text

-- `isArchived` of `BaseModel`
abbrev pub is_archived : Common → Bool
is_archived m = is_some m.archived_at

-- `isFrozen`
abbrev pub is_frozen : Common → Bool
is_frozen m = is_some m.frozen_at && not (is_some m.archived_at)

-- `get status()`
abbrev pub status : Common → StorageStatus
status m =
    if is_some m.archived_at then archived else if is_some m.frozen_at then frozen else active

-- The argument of `with`: `none` is a field that is left out (`undefined`).
pub record Changes : Type 0 where
  pub name : Option Text
  pub description : Option (Option Text)
  pub icon : Option Text
  pub color : Option Text
  pub frozen_at : Option (Option ℕ)
  pub archived_at : Option (Option ℕ)
  pub updated_at : Option ℕ

abbrev pub no_changes : Changes
no_changes = record {
  name = none;
  description = none;
  icon = none;
  color = none;
  frozen_at = none;
  archived_at = none;
  updated_at = none;
}

-- The common part of `with`.
unfoldable pub with_common : ℕ → Changes → Common → Common
with_common now changes m = record {
  uuid = m.uuid;
  tenant_uuid = m.tenant_uuid;
  name = or_else changes.name m.name;
  description = or_else changes.description m.description;
  icon = or_else changes.icon m.icon;
  color = or_else changes.color m.color;
  frozen_at = or_else changes.frozen_at m.frozen_at;
  archived_at = or_else changes.archived_at m.archived_at;
  created_at = m.created_at;
  updated_at = or_else changes.updated_at now;
  id = m.id;
}

-- The common part of the props of `create`; `undefined` and `null` are both `none`.
pub record CreateProps : Type 0 where
  pub uuid : Text
  pub tenant_uuid : Text
  pub name : Text
  pub description : Option Text
  pub icon : Text
  pub color : Text

-- `s ? f(s) : null`, where the empty string is falsy too.
abbrev pub if_truthy :
    Option Text → (Text → Outcome StorageException Text) → Outcome StorageException (Option Text)
if_truthy none f = ok none
if_truthy (some []) f = ok none
if_truthy (some (c ∷ s)) f = and_then (f (c ∷ s)) (λ v. ok (some v))

-- The address of a room: trimmed, and `null` if nothing is left.
abbrev pub room_address : Option Text → Outcome StorageException (Option Text)
room_address none = ok none
room_address (some s) = if_truthy (some (trim s)) create_address

-- `validate` of the package `uuid`, which the value object `UUIDVO` calls.
module _ (validate : Text → Bool) where
  -- `new UUIDVO(s)`
  unfoldable pub new_uuid : Text → Outcome StorageException Text
  new_uuid s = if validate s then ok s else throw (invalid_uuid s)

  -- The common part of the three `create`s, in the order in which the arguments are evaluated.
  unfoldable pub create_common : ℕ → CreateProps → Outcome StorageException Common
  unfolding new_uuid
  create_common now props = and_then (new_uuid props.uuid) λ uuid.
      and_then (new_uuid props.tenant_uuid) λ tenant_uuid. and_then (create_name props.name) λ name.
        and_then (if_truthy props.description create_description) λ description.
          and_then (create_icon props.icon) λ icon. and_then (create_color props.color) λ color.
            ok (record {
              uuid = uuid;
              tenant_uuid = tenant_uuid;
              name = name;
              description = description;
              icon = icon;
              color = color;
              frozen_at = none;
              archived_at = none;
              created_at = now;
              updated_at = now;
              id = none;
            })

  -- `WarehouseModel.create`
  unfoldable pub create_warehouse_model :
      ℕ → CreateProps → Text → Outcome StorageException WarehouseModel
  unfolding create_common
  create_warehouse_model now props address = and_then (create_common now props) λ common.
      and_then (create_address address)
        λ address. ok (record { common = common; address = address })

  -- `StoreRoomModel.create`
  unfoldable pub create_store_room_model :
      ℕ → CreateProps → Option Text → Outcome StorageException StoreRoomModel
  unfolding create_common
  create_store_room_model now props address = and_then (create_common now props) λ common.
      and_then (room_address address) λ address. ok (record { common = common; address = address })

  -- `CustomRoomModel.create`
  unfoldable pub create_custom_room_model :
      ℕ → CreateProps → Text → Option Text → Outcome StorageException CustomRoomModel
  unfolding create_common
  create_custom_room_model now props room_type address =
      and_then (create_common now props) λ common.
        and_then (create_room_type_name room_type) λ room_type.
          and_then (room_address address)
            λ address. ok (record { common = common; room_type = room_type; address = address })
