-- ===== src/Storage/Handlers/Requests/Invariant.antt =====
-- Whatever commands are handled, every stored storage is valid, and none is archived and frozen at once.
use stocka_server.Prelude.{sym, subst, ℕ, refl, Option, Text}
use stocka_server.Shared.Outcome.{◌>>=◌, refuse_if}
use stocka_server.Storage.Model.{StorageType, warehouse, store_room, custom_room}
use stocka_server.Storage.Update.{UpdateProps}
use stocka_server.Storage.Lifecycle.{StorageModel, Aggregate, mark_permanently_deleted}
use stocka_server.Storage.Lifecycle.Machine
use stocka_server.Storage.Lifecycle.Machine.{Operation, apply_operation}
use stocka_server.Storage.View.{from_warehouse, from_store_room, from_custom_room}
use stocka_server.Storage.Warehouse.{warehouse_storage}
use stocka_server.Storage.StoreRoom.{store_room_storage}
use stocka_server.Storage.CustomRoom.{custom_room_storage}
use stocka_server.Storage.Services.{Repository, Services, Handler, find_own, check_name}
use stocka_server.Storage.Services.Leaves.{check_name-Leaves}
use stocka_server.Storage.Handlers.Transitions.{StorageCommand}
use stocka_server.Storage.Handlers.Editing
use stocka_server.Storage.Handlers.Editing.{is_blank}
use stocka_server.Storage.Handlers.TypeChange
use stocka_server.Storage.Handlers.Maintains.{
  Holds, Maintains, Keeps, Anything, Maintains-then, Maintains-after, find_own-Maintains,
  store_update-Maintains, transition_handler-Maintains, restore_handler-Maintains,
  delete_handler-Maintains,
}
use stocka_server.Storage.Handlers.Maintains.Conversion.{convert-Maintains}
use stocka_server.Storage.Handlers.Maintains.Kinds.{
  GoodWarehouse, GoodStoreRoom, GoodCustomRoom, apply_operation-Good, mark_permanently_deleted-Good,
  warehouse-Dateless, store_room-Dateless, custom_room-Dateless, update_warehouse-Good,
  update_store_room-Good, update_custom_room-Good, warehouse_for_type_change-Good,
  store_room_for_type_change-Good, custom_room_for_type_change-Good,
}
use stocka_server.Storage.Handlers.Requests.{
  Request, TypeChangeRequest, store_room_to_warehouse, custom_room_to_warehouse,
  warehouse_to_store_room, custom_room_to_store_room, warehouse_to_custom_room,
  store_room_to_custom_room, drop_reply, handle_type_change, handle,
}
use stocka_server.Storage.Handlers.Requests.Uniform.{
  ModelOf, storage_of, view_of, table_of, guard_of, handle_transition, handle_restore,
  handle_deletion, archive-uniform, freeze-uniform, unfreeze-uniform, restore-uniform,
  deletion-uniform,
}

abbrev GoodOf : (t : StorageType) → ModelOf t → Type 0
GoodOf warehouse = GoodWarehouse
GoodOf store_room = GoodStoreRoom
GoodOf custom_room = GoodCustomRoom

method-Good :
    (t : StorageType) (op : Operation) (now : ℕ) (actor : Text) (a : Aggregate (ModelOf t))
    → GoodOf t a.model
    → GoodOf t (apply_operation ⦃k = storage_of t⦄ op now actor a).1.model
method-Good warehouse = apply_operation-Good _ warehouse-Dateless
method-Good store_room = apply_operation-Good _ store_room-Dateless
method-Good custom_room = apply_operation-Good _ custom_room-Dateless

deletion-Good :
    (t : StorageType) (actor : Text) (a : Aggregate (ModelOf t))
    → GoodOf t a.model
    → GoodOf t (mark_permanently_deleted ⦃k = storage_of t⦄ actor a).1.model
deletion-Good warehouse = mark_permanently_deleted-Good _
deletion-Good store_room = mark_permanently_deleted-Good _
deletion-Good custom_room = mark_permanently_deleted-Good _

module _ {W : Type 0} (I : W → Type 0) where
  pub drop_reply-Maintains :
      {A : Type 0} (m : Handler W A)
      → Maintains I (Anything I) m
      → Maintains I (Anything I) (drop_reply m)
  drop_reply-Maintains m h = Maintains-then I (Anything I) (Anything I) m _ h λ _ _ s i. (i, tt)

  -- A database of which `I` says that its three tables are good, and that the transaction and the
  -- table of containers have no say in.
  pub record IsSound (sv : Services W) : Type 0 where
    pub warehouses : Holds I GoodWarehouse sv.warehouses
    pub store_rooms : Holds I GoodStoreRoom sv.store_rooms
    pub custom_rooms : Holds I GoodCustomRoom sv.custom_rooms
    pub commit : Keeps I sv.commit
    pub find_or_create : (tenant : Text) → Keeps I (sv.storages.find_or_create tenant)

module _ {W : Type 0} (I : W → Type 0) (sv : Services W) (sound : IsSound I sv) (now : ℕ) where
  -- The handlers that start from a stored storage.
  with_own :
      {M A : Type 0} ⦃k : StorageModel M⦄ (P : M → Type 0) (repo : Repository W M)
      (c : StorageCommand) (rest : Aggregate M → Handler W A)
      → Holds I P repo
      → ((a : Aggregate M) → P a.model → Maintains I (Anything I) (rest a))
      → Maintains I (Anything I) (find_own repo c.storage_uuid c.tenant_uuid >>= rest)
  with_own P repo c rest holds h =
      Maintains-then I (λ a. P a.model) (Anything I) (find_own repo c.storage_uuid c.tenant_uuid)
        rest (find_own-Maintains I P repo c.storage_uuid c.tenant_uuid holds) h

  handle_type_change-Maintains :
      (req : TypeChangeRequest) → Maintains I (Anything I) (handle_type_change sv now req)
  unfolding handle_type_change TypeChange.change_store_room_to_warehouse
      TypeChange.change_custom_room_to_warehouse TypeChange.change_warehouse_to_store_room
      TypeChange.change_custom_room_to_store_room TypeChange.change_warehouse_to_custom_room
      TypeChange.change_store_room_to_custom_room
  handle_type_change-Maintains (store_room_to_warehouse c metadata) =
      drop_reply-Maintains I (TypeChange.change_store_room_to_warehouse sv now c metadata) (
        with_own GoodStoreRoom sv.store_rooms c _ sound.store_rooms λ found p.
          convert-Maintains I sv sound.commit GoodStoreRoom GoodWarehouse sv.store_rooms
            sv.warehouses sound.store_rooms sound.warehouses store_room warehouse c _ _ _ _ found
            (warehouse_for_type_change-Good sv.validate now _ _))
  handle_type_change-Maintains (custom_room_to_warehouse c metadata) =
      drop_reply-Maintains I (TypeChange.change_custom_room_to_warehouse sv now c metadata) (
        with_own GoodCustomRoom sv.custom_rooms c _ sound.custom_rooms λ found p.
          convert-Maintains I sv sound.commit GoodCustomRoom GoodWarehouse sv.custom_rooms
            sv.warehouses sound.custom_rooms sound.warehouses custom_room warehouse c _ _ _ _ found
            (warehouse_for_type_change-Good sv.validate now _ _))
  handle_type_change-Maintains (warehouse_to_store_room c metadata) =
      drop_reply-Maintains I (TypeChange.change_warehouse_to_store_room sv now c metadata) (
        with_own GoodWarehouse sv.warehouses c _ sound.warehouses λ found p.
          convert-Maintains I sv sound.commit GoodWarehouse GoodStoreRoom sv.warehouses
            sv.store_rooms sound.warehouses sound.store_rooms warehouse store_room c _ _ _ _ found
            (store_room_for_type_change-Good sv.validate now _ _))
  handle_type_change-Maintains (custom_room_to_store_room c metadata) =
      drop_reply-Maintains I (TypeChange.change_custom_room_to_store_room sv now c metadata) (
        with_own GoodCustomRoom sv.custom_rooms c _ sound.custom_rooms λ found p.
          convert-Maintains I sv sound.commit GoodCustomRoom GoodStoreRoom sv.custom_rooms
            sv.store_rooms sound.custom_rooms sound.store_rooms custom_room store_room c _ _ _ _
            found (store_room_for_type_change-Good sv.validate now _ _))
  handle_type_change-Maintains (warehouse_to_custom_room c metadata) =
      drop_reply-Maintains I (TypeChange.change_warehouse_to_custom_room sv now c metadata) (
        with_own GoodWarehouse sv.warehouses c _ sound.warehouses λ found p.
          convert-Maintains I sv sound.commit GoodWarehouse GoodCustomRoom sv.warehouses
            sv.custom_rooms sound.warehouses sound.custom_rooms warehouse custom_room c _ _ _ _
            found (custom_room_for_type_change-Good sv.validate now _ _ _))
  handle_type_change-Maintains (store_room_to_custom_room c metadata) =
      drop_reply-Maintains I (TypeChange.change_store_room_to_custom_room sv now c metadata) (
        with_own GoodStoreRoom sv.store_rooms c _ sound.store_rooms λ found p.
          convert-Maintains I sv sound.commit GoodStoreRoom GoodCustomRoom sv.store_rooms
            sv.custom_rooms sound.store_rooms sound.custom_rooms store_room custom_room c _ _ _ _
            found (custom_room_for_type_change-Good sv.validate now _ _ _))

  update_warehouse-Maintains :
      (c : StorageCommand) (name : Option Text) (description : Option (Option Text))
      (address : Option Text)
      → Maintains I (Anything I) (Editing.update_warehouse sv now c name description address)
  unfolding Editing.update_warehouse
  update_warehouse-Maintains c name description address =
      with_own GoodWarehouse sv.warehouses c _ sound.warehouses λ found p.
        Maintains-after I (Anything I) (check_name sv c.tenant_uuid name found.model.common.name) _
          (check_name-Leaves _ sv c.tenant_uuid name found.model.common.name)
          λ _.
            Maintains-after I (Anything I) (refuse_if (is_blank address) _) _ (λ _. refl)
              λ _.
                store_update-Maintains I sv GoodWarehouse sv.warehouses sound.warehouses
                  from_warehouse c _ (update_warehouse-Good now c.actor_uuid _ address found p)

  update_store_room-Maintains :
      (c : StorageCommand) (name : Option Text) (description address : Option (Option Text))
      → Maintains I (Anything I) (Editing.update_store_room sv now c name description address)
  unfolding Editing.update_store_room
  update_store_room-Maintains c name description address =
      with_own GoodStoreRoom sv.store_rooms c _ sound.store_rooms λ found p.
        Maintains-after I (Anything I) (check_name sv c.tenant_uuid name found.model.common.name) _
          (check_name-Leaves _ sv c.tenant_uuid name found.model.common.name)
          λ _.
            store_update-Maintains I sv GoodStoreRoom sv.store_rooms sound.store_rooms
              from_store_room c _ (update_store_room-Good now c.actor_uuid _ address found p)

  update_custom_room-Maintains :
      (c : StorageCommand) (props : UpdateProps) (room_type : Option Text)
      (address : Option (Option Text))
      → Maintains I (Anything I) (Editing.update_custom_room sv now c props room_type address)
  unfolding Editing.update_custom_room
  update_custom_room-Maintains c props room_type address =
      with_own GoodCustomRoom sv.custom_rooms c _ sound.custom_rooms λ found p.
        Maintains-after I (Anything I)
          (check_name sv c.tenant_uuid props.name found.model.common.name) _
          (check_name-Leaves _ sv c.tenant_uuid props.name found.model.common.name)
          λ _.
            store_update-Maintains I sv GoodCustomRoom sv.custom_rooms sound.custom_rooms
              from_custom_room c _
              (update_custom_room-Good now c.actor_uuid props room_type address found p)

  table-Holds : (t : StorageType) → Holds I (GoodOf t) (table_of sv t)
  table-Holds warehouse = sound.warehouses
  table-Holds store_room = sound.store_rooms
  table-Holds custom_room = sound.custom_rooms

  module _ (t : StorageType) (c : StorageCommand) where
    transition-Maintains :
        (op : Operation) → Maintains I (Anything I) (drop_reply (handle_transition sv now t c op))
    transition-Maintains op = drop_reply-Maintains I (handle_transition sv now t c op) (
        transition_handler-Maintains I sv (GoodOf t) (table_of sv t) (table-Holds t)
          ⦃k = storage_of t⦄ (apply_operation ⦃k = storage_of t⦄ op now) (method-Good t op now) c
          (view_of t))

    restore-Maintains : Maintains I (Anything I) (drop_reply (handle_restore sv now t c))
    restore-Maintains = drop_reply-Maintains I (handle_restore sv now t c) (
        restore_handler-Maintains I sv (GoodOf t) (table_of sv t) (table-Holds t) ⦃k = storage_of t⦄
          (apply_operation ⦃k = storage_of t⦄ Machine.restore now)
          (method-Good t Machine.restore now) c (view_of t) (guard_of sv t))

    deletion-Maintains : Maintains I (Anything I) (drop_reply (handle_deletion sv now t c))
    deletion-Maintains = drop_reply-Maintains I (handle_deletion sv now t c) (
        delete_handler-Maintains I sv (GoodOf t) (table_of sv t) (table-Holds t) ⦃k = storage_of t⦄
          (mark_permanently_deleted ⦃k = storage_of t⦄) (deletion-Good t) c)

  pub handle-Maintains : (req : Request) → Maintains I (Anything I) (handle sv now req)
  unfolding handle
  handle-Maintains (Request.archive t c) =
      subst (Maintains I (Anything I)) (sym (archive-uniform sv now c t))
        (transition-Maintains t c Machine.archive)
  handle-Maintains (Request.freeze t c) =
      subst (Maintains I (Anything I)) (sym (freeze-uniform sv now c t))
        (transition-Maintains t c Machine.freeze)
  handle-Maintains (Request.unfreeze t c) =
      subst (Maintains I (Anything I)) (sym (unfreeze-uniform sv now c t))
        (transition-Maintains t c Machine.unfreeze)
  handle-Maintains (Request.restore t c) =
      subst (Maintains I (Anything I)) (sym (restore-uniform sv now c t)) (restore-Maintains t c)
  handle-Maintains (Request.delete_permanent t c) =
      subst (Maintains I (Anything I)) (sym (deletion-uniform sv now c t)) (deletion-Maintains t c)
  handle-Maintains (Request.update_warehouse c name description address) =
      drop_reply-Maintains I (Editing.update_warehouse sv now c name description address)
        (update_warehouse-Maintains c name description address)
  handle-Maintains (Request.update_store_room c name description address) =
      drop_reply-Maintains I (Editing.update_store_room sv now c name description address)
        (update_store_room-Maintains c name description address)
  handle-Maintains (Request.update_custom_room c props room_type address) =
      drop_reply-Maintains I (Editing.update_custom_room sv now c props room_type address)
        (update_custom_room-Maintains c props room_type address)
  handle-Maintains (Request.change_type req) = handle_type_change-Maintains req
