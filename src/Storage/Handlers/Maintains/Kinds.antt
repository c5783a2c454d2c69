-- ===== src/Storage/Handlers/Maintains/Kinds.antt =====
-- What the methods of the three aggregates keep: valid fields, and that no storage is archived and
-- frozen at once.
use stocka_server.Prelude.{
  ℕ, ◌≡◌, ◌∙◌, subst, inl, inr, not, ◌||◌, is_some, Bool, Bool-cases, Option, none, some, Text,
}
use stocka_server.Shared.Outcome.{ok, and_then-eq-ok, ok-injective}
use stocka_server.Storage.Model.{
  Common, WarehouseModel, StoreRoomModel, CustomRoomModel, Changes, CreateProps, no_changes,
  with_common, create_warehouse_model, create_store_room_model, create_custom_room_model,
}
use stocka_server.Storage.Lifecycle.{
  StorageModel, Aggregate, common_of, mark_archived, mark_frozen, mark_unfrozen, mark_restored,
  mark_permanently_deleted,
}
use stocka_server.Storage.Lifecycle.Machine.{
  Operation, archive, freeze, unfreeze, restore, IsConsistent, apply_operation,
  apply_operation-IsConsistent,
}
use stocka_server.Storage.Update.{UpdateProps}
use stocka_server.Storage.Valid.{IsValidCommon, Untouched}
use stocka_server.Storage.Warehouse
use stocka_server.Storage.Warehouse.{Warehouse, warehouse_storage, with_warehouse}
use stocka_server.Storage.Warehouse.Laws as WarehouseLaws
use stocka_server.Storage.StoreRoom
use stocka_server.Storage.StoreRoom.{StoreRoom, store_room_storage, with_store_room}
use stocka_server.Storage.StoreRoom.Laws as StoreRoomLaws
use stocka_server.Storage.CustomRoom
use stocka_server.Storage.CustomRoom.{CustomRoom, custom_room_storage, with_custom_room}
use stocka_server.Storage.CustomRoom.Laws as CustomRoomLaws

-- A change of the two dates of the status.
abbrev pub dates : Option (Option ℕ) → Option (Option ℕ) → Changes
dates frozen archived = record no_changes { frozen_at = frozen; archived_at = archived }

module _ {M : Type 0} ⦃k : StorageModel M⦄ (IsValid : M → Type 0) where
  -- What the fields satisfy does not depend on the dates.
  abbrev pub Dateless : Type 0
  Dateless =
      (now : ℕ) (frozen archived : Option (Option ℕ)) (m : M)
      → IsValid m
      → IsValid (k.with_changes now (dates frozen archived) m)

  abbrev pub Good : M → Type 0
  Good m = IsValid m × IsConsistent (k.common m)

  apply_operation-Valid :
      Dateless
      → (op : Operation) (now : ℕ) (actor : Text) (a : Aggregate M) → IsValid a.model
      → IsValid (apply_operation op now actor a).1.model
  unfolding apply_operation mark_archived mark_frozen mark_unfrozen mark_restored
  apply_operation-Valid h archive now actor a v =
      elim (Bool-cases (is_some (common_of a).archived_at)) [
        | inl e ↦ rw e v
        | inr e ↦ rw e (h now (some none) (some (some now)) a.model v)
      ]
  apply_operation-Valid h freeze now actor a v =
      elim (Bool-cases (is_some (common_of a).archived_at)) [
        | inl e ↦ rw e v
        | inr e ↦ rw e (elim (Bool-cases (is_some (common_of a).frozen_at)) [
          | inl f ↦ rw f v
          | inr f ↦ rw f (h now (some (some now)) none a.model v)
        ])
      ]
  apply_operation-Valid h unfreeze now actor a v =
      elim (Bool-cases
        (not (is_some (common_of a).frozen_at) || is_some (common_of a).archived_at)) [
          | inl e ↦ rw e v
          | inr e ↦ rw e (h now (some none) none a.model v)
        ]
  apply_operation-Valid h restore now actor a v =
      elim (Bool-cases (is_some (common_of a).archived_at)) [
        | inl e ↦ rw e (h now (some none) (some none) a.model v)
        | inr e ↦ rw e v
      ]

  pub apply_operation-Good :
      Dateless
      → (op : Operation) (now : ℕ) (actor : Text) (a : Aggregate M) → Good a.model
      → Good (apply_operation op now actor a).1.model
  apply_operation-Good h op now actor a (v, c) =
      (apply_operation-Valid h op now actor a v, apply_operation-IsConsistent op now actor a c)

  pub mark_permanently_deleted-Good :
      (actor : Text) (a : Aggregate M)
      → Good a.model
      → Good (mark_permanently_deleted actor a).1.model
  unfolding mark_permanently_deleted
  mark_permanently_deleted-Good actor a g = elim (Bool-cases (is_some (common_of a).archived_at)) [
    | inl e ↦ rw e g
    | inr e ↦ rw e g
  ]

dates-IsValidCommon :
    (now : ℕ) (frozen archived : Option (Option ℕ)) (m : Common)
    → IsValidCommon m
    → IsValidCommon (with_common now (dates frozen archived) m)
unfolding with_common
dates-IsValidCommon now frozen archived m v = record {
  name = v.name;
  description = v.description;
  icon = v.icon;
  color = v.color;
}

-- An edit leaves the dates, and so their consistency.
Untouched-IsConsistent : (m n : Common) → Untouched m n → IsConsistent m → IsConsistent n
Untouched-IsConsistent m n u (inl e) = inl (u.archived_at ∙ e)
Untouched-IsConsistent m n u (inr e) = inr (u.frozen_at ∙ e)

abbrev pub GoodWarehouse : WarehouseModel → Type 0
GoodWarehouse = Good WarehouseLaws.IsValid

abbrev pub GoodStoreRoom : StoreRoomModel → Type 0
GoodStoreRoom = Good StoreRoomLaws.IsValid

abbrev pub GoodCustomRoom : CustomRoomModel → Type 0
GoodCustomRoom = Good CustomRoomLaws.IsValid

pub warehouse-Dateless : Dateless WarehouseLaws.IsValid
unfolding with_warehouse
warehouse-Dateless now frozen archived m v = record {
  common = dates-IsValidCommon now frozen archived m.common v.common;
  address = v.address;
}

pub store_room-Dateless : Dateless StoreRoomLaws.IsValid
unfolding with_store_room
store_room-Dateless now frozen archived m v = record {
  common = dates-IsValidCommon now frozen archived m.common v.common;
  address = v.address;
}

pub custom_room-Dateless : Dateless CustomRoomLaws.IsValid
unfolding with_custom_room
custom_room-Dateless now frozen archived m v = record {
  common = dates-IsValidCommon now frozen archived m.common v.common;
  room_type = v.room_type;
  address = v.address;
}

module _ (now : ℕ) (actor : Text) (props : UpdateProps) where
  pub update_warehouse-Good :
      (address : Option Text) (a : Warehouse)
      → GoodWarehouse a.model
      → GoodWarehouse (Warehouse.update now actor props address a).1.model
  update_warehouse-Good address a (v, c) =
      let still = (WarehouseLaws.update_warehouse-StillValid now actor props address a v).0 in
      (still.0, Untouched-IsConsistent a.model.common _ still.1 c)

  pub update_store_room-Good :
      (address : Option (Option Text)) (a : StoreRoom)
      → GoodStoreRoom a.model
      → GoodStoreRoom (StoreRoom.update now actor props address a).1.model
  update_store_room-Good address a (v, c) =
      let still = (StoreRoomLaws.update_store_room-StillValid now actor props address a v).0 in
      (still.0, Untouched-IsConsistent a.model.common _ still.1 c)

  pub update_custom_room-Good :
      (room_type : Option Text) (address : Option (Option Text)) (a : CustomRoom)
      → GoodCustomRoom a.model
      → GoodCustomRoom (CustomRoom.update now actor props room_type address a).1.model
  update_custom_room-Good room_type address a (v, c) =
      let still =
        (CustomRoomLaws.update_custom_room-StillValid now actor props room_type address a v).0 in
      (still.0, Untouched-IsConsistent a.model.common _ still.1 c)

module _ (validate : Text → Bool) (now : ℕ) (props : CreateProps) where
  pub warehouse_for_type_change-Good :
      (address : Text) (a : Warehouse)
      → Warehouse.for_type_change validate now props address ≡ ok a
      → GoodWarehouse a.model
  unfolding Warehouse.for_type_change
  warehouse_for_type_change-Good address a h =
      let (m, e, h1) = and_then-eq-ok (create_warehouse_model validate now props address) _ h in
      let (fresh, valid) = WarehouseLaws.model_sound validate now props address e in
      subst (λ a. GoodWarehouse a.model) (ok-injective h1) (valid, inl fresh.archived_at)

  pub store_room_for_type_change-Good :
      (address : Option Text) (a : StoreRoom)
      → StoreRoom.for_type_change validate now props address ≡ ok a
      → GoodStoreRoom a.model
  unfolding StoreRoom.for_type_change
  store_room_for_type_change-Good address a h =
      let (m, e, h1) = and_then-eq-ok (create_store_room_model validate now props address) _ h in
      let (fresh, valid) = StoreRoomLaws.model_sound validate now props address e in
      subst (λ a. GoodStoreRoom a.model) (ok-injective h1) (valid, inl fresh.archived_at)

  pub custom_room_for_type_change-Good :
      (room_type : Text) (address : Option Text) (a : CustomRoom)
      → CustomRoom.for_type_change validate now props room_type address ≡ ok a
      → GoodCustomRoom a.model
  unfolding CustomRoom.for_type_change
  custom_room_for_type_change-Good room_type address a h =
      let (m, e, h1) =
        and_then-eq-ok (create_custom_room_model validate now props room_type address) _ h in
      let (fresh, valid) = CustomRoomLaws.model_sound validate now props room_type address e in
      subst (λ a. GoodCustomRoom a.model) (ok-injective h1) (valid, inl fresh.archived_at)
