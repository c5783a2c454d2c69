-- ===== src/Storage/Handlers/Requests/Atomic.antt =====
-- What a request that does not succeed leaves behind.
use stocka_server.Prelude.{refl, sym, subst, ap, inl, inr, ℕ, Option, Text}
use stocka_server.Shared.Outcome.{refuse_if}
use stocka_server.Shared.Rules.{AllOrNothing, AllOrNothing-after, AllOrNothing-then}
use stocka_server.Storage.Model.{StorageType, warehouse, store_room, custom_room}
use stocka_server.Storage.Update.{UpdateProps}
use stocka_server.Storage.View.{from_warehouse, from_store_room, from_custom_room}
use stocka_server.Storage.Warehouse.{warehouse_storage}
use stocka_server.Storage.StoreRoom.{store_room_storage}
use stocka_server.Storage.CustomRoom.{custom_room_storage}
use stocka_server.Storage.Services.{Services, Server, Handler, find_own, check_name}
use stocka_server.Storage.Services.Leaves.{find_own-Leaves, check_name-Leaves}
use stocka_server.Storage.Handlers.Transitions.{StorageCommand}
use stocka_server.Storage.Handlers.Editing
use stocka_server.Storage.Handlers.Editing.{is_blank}
use stocka_server.Storage.Handlers.TypeChange
use stocka_server.Storage.Handlers.Parts.{
  Silent, store_update-Silent, transition_handler-Silent, restore_handler-Silent,
  delete_handler-Silent, convert-AllOrNothing,
}
use stocka_server.Storage.Handlers.Requests.{
  Request, TypeChangeRequest, store_room_to_warehouse, custom_room_to_warehouse,
  warehouse_to_store_room, custom_room_to_store_room, warehouse_to_custom_room,
  store_room_to_custom_room, drop_reply, handle_type_change, handle,
}
use stocka_server.Storage.Handlers.Requests.Uniform.{
  storage_of, view_of, table_of, guard_of, handle_transition, handle_restore, handle_deletion,
  archive-uniform, freeze-uniform, unfreeze-uniform, restore-uniform, deletion-uniform,
}
use stocka_server.Storage.Lifecycle.{mark_permanently_deleted}
use stocka_server.Storage.Lifecycle.Machine
use stocka_server.Storage.Lifecycle.Machine.{Operation, apply_operation}

drop_reply-AllOrNothing :
    {W A V : Type 0} (v : Server W → V) (m : Handler W A)
    → AllOrNothing v m
    → AllOrNothing v (drop_reply m)
drop_reply-AllOrNothing v m h = AllOrNothing-then v m _ h λ _ s. refl

silent_of_unchanged :
    {W A : Type 0} (m : Handler W A) → AllOrNothing (λ s. s) m → AllOrNothing (λ s. s.published) m
silent_of_unchanged m h s = elim (h s) [
  | inl done ↦ inl done
  | inr same ↦ inr (ap (λ s. s.published) same)
]

module _ {W : Type 0} (sv : Services W) (now : ℕ) where
  -- A change of type that does not succeed changes no row and publishes no event.
  pub handle_type_change-AllOrNothing :
      (req : TypeChangeRequest) → AllOrNothing (λ s. s) (handle_type_change sv now req)
  unfolding handle_type_change TypeChange.change_store_room_to_warehouse
      TypeChange.change_custom_room_to_warehouse TypeChange.change_warehouse_to_store_room
      TypeChange.change_custom_room_to_store_room TypeChange.change_warehouse_to_custom_room
      TypeChange.change_store_room_to_custom_room
  handle_type_change-AllOrNothing (store_room_to_warehouse c metadata) =
      drop_reply-AllOrNothing _ (TypeChange.change_store_room_to_warehouse sv now c metadata) (
        AllOrNothing-after _ (find_own sv.store_rooms c.storage_uuid c.tenant_uuid) _
          (find_own-Leaves _ sv.store_rooms c.storage_uuid c.tenant_uuid)
          λ found.
            convert-AllOrNothing sv sv.store_rooms sv.warehouses store_room warehouse c _ _ _ _
              found)
  handle_type_change-AllOrNothing (custom_room_to_warehouse c metadata) =
      drop_reply-AllOrNothing _ (TypeChange.change_custom_room_to_warehouse sv now c metadata) (
        AllOrNothing-after _ (find_own sv.custom_rooms c.storage_uuid c.tenant_uuid) _
          (find_own-Leaves _ sv.custom_rooms c.storage_uuid c.tenant_uuid)
          λ found.
            convert-AllOrNothing sv sv.custom_rooms sv.warehouses custom_room warehouse c _ _ _ _
              found)
  handle_type_change-AllOrNothing (warehouse_to_store_room c metadata) =
      drop_reply-AllOrNothing _ (TypeChange.change_warehouse_to_store_room sv now c metadata) (
        AllOrNothing-after _ (find_own sv.warehouses c.storage_uuid c.tenant_uuid) _
          (find_own-Leaves _ sv.warehouses c.storage_uuid c.tenant_uuid)
          λ found.
            convert-AllOrNothing sv sv.warehouses sv.store_rooms warehouse store_room c _ _ _ _
              found)
  handle_type_change-AllOrNothing (custom_room_to_store_room c metadata) =
      drop_reply-AllOrNothing _ (TypeChange.change_custom_room_to_store_room sv now c metadata) (
        AllOrNothing-after _ (find_own sv.custom_rooms c.storage_uuid c.tenant_uuid) _
          (find_own-Leaves _ sv.custom_rooms c.storage_uuid c.tenant_uuid)
          λ found.
            convert-AllOrNothing sv sv.custom_rooms sv.store_rooms custom_room store_room c _ _ _ _
              found)
  handle_type_change-AllOrNothing (warehouse_to_custom_room c metadata) =
      drop_reply-AllOrNothing _ (TypeChange.change_warehouse_to_custom_room sv now c metadata) (
        AllOrNothing-after _ (find_own sv.warehouses c.storage_uuid c.tenant_uuid) _
          (find_own-Leaves _ sv.warehouses c.storage_uuid c.tenant_uuid)
          λ found.
            convert-AllOrNothing sv sv.warehouses sv.custom_rooms warehouse custom_room c _ _ _ _
              found)
  handle_type_change-AllOrNothing (store_room_to_custom_room c metadata) =
      drop_reply-AllOrNothing _ (TypeChange.change_store_room_to_custom_room sv now c metadata) (
        AllOrNothing-after _ (find_own sv.store_rooms c.storage_uuid c.tenant_uuid) _
          (find_own-Leaves _ sv.store_rooms c.storage_uuid c.tenant_uuid)
          λ found.
            convert-AllOrNothing sv sv.store_rooms sv.custom_rooms store_room custom_room c _ _ _ _
              found)

  update_warehouse-Silent :
      (c : StorageCommand) (name : Option Text) (description : Option (Option Text))
      (address : Option Text)
      → Silent sv (Editing.update_warehouse sv now c name description address)
  unfolding Editing.update_warehouse
  update_warehouse-Silent c name description address =
      AllOrNothing-after _ (find_own sv.warehouses c.storage_uuid c.tenant_uuid) _
        (find_own-Leaves _ sv.warehouses c.storage_uuid c.tenant_uuid)
        λ found.
          AllOrNothing-after _ (check_name sv c.tenant_uuid name found.model.common.name) _
            (check_name-Leaves _ sv c.tenant_uuid name found.model.common.name)
            λ _.
              AllOrNothing-after _ (refuse_if (is_blank address) _) _ (λ _. refl)
                λ _. store_update-Silent sv sv.warehouses from_warehouse c _

  update_store_room-Silent :
      (c : StorageCommand) (name : Option Text) (description address : Option (Option Text))
      → Silent sv (Editing.update_store_room sv now c name description address)
  unfolding Editing.update_store_room
  update_store_room-Silent c name description address =
      AllOrNothing-after _ (find_own sv.store_rooms c.storage_uuid c.tenant_uuid) _
        (find_own-Leaves _ sv.store_rooms c.storage_uuid c.tenant_uuid)
        λ found.
          AllOrNothing-after _ (check_name sv c.tenant_uuid name found.model.common.name) _
            (check_name-Leaves _ sv c.tenant_uuid name found.model.common.name)
            λ _. store_update-Silent sv sv.store_rooms from_store_room c _

  update_custom_room-Silent :
      (c : StorageCommand) (props : UpdateProps) (room_type : Option Text)
      (address : Option (Option Text))
      → Silent sv (Editing.update_custom_room sv now c props room_type address)
  unfolding Editing.update_custom_room
  update_custom_room-Silent c props room_type address =
      AllOrNothing-after _ (find_own sv.custom_rooms c.storage_uuid c.tenant_uuid) _
        (find_own-Leaves _ sv.custom_rooms c.storage_uuid c.tenant_uuid)
        λ found.
          AllOrNothing-after _ (check_name sv c.tenant_uuid props.name found.model.common.name) _
            (check_name-Leaves _ sv c.tenant_uuid props.name found.model.common.name)
            λ _. store_update-Silent sv sv.custom_rooms from_custom_room c _

  module _ (t : StorageType) (c : StorageCommand) where
    transition-Silent : (op : Operation) → Silent sv (drop_reply (handle_transition sv now t c op))
    transition-Silent op = drop_reply-AllOrNothing _ (handle_transition sv now t c op) (
        transition_handler-Silent sv (table_of sv t) (view_of t) ⦃k = storage_of t⦄
          (apply_operation ⦃k = storage_of t⦄ op now) c)

    restore-Silent : Silent sv (drop_reply (handle_restore sv now t c))
    restore-Silent = drop_reply-AllOrNothing _ (handle_restore sv now t c) (
        restore_handler-Silent sv (table_of sv t) (view_of t) ⦃k = storage_of t⦄
          (apply_operation ⦃k = storage_of t⦄ Machine.restore now) c (guard_of sv t))

    deletion-Silent : Silent sv (drop_reply (handle_deletion sv now t c))
    deletion-Silent = drop_reply-AllOrNothing _ (handle_deletion sv now t c) (
        delete_handler-Silent sv ⦃k = storage_of t⦄ (table_of sv t)
          (mark_permanently_deleted ⦃k = storage_of t⦄) c)

  -- A request that does not succeed publishes no event.
  pub handle-Silent : (req : Request) → AllOrNothing (λ s. s.published) (handle sv now req)
  unfolding handle
  handle-Silent (Request.archive t c) =
      subst (Silent sv) (sym (archive-uniform sv now c t)) (transition-Silent t c Machine.archive)
  handle-Silent (Request.freeze t c) =
      subst (Silent sv) (sym (freeze-uniform sv now c t)) (transition-Silent t c Machine.freeze)
  handle-Silent (Request.unfreeze t c) =
      subst (Silent sv) (sym (unfreeze-uniform sv now c t)) (transition-Silent t c Machine.unfreeze)
  handle-Silent (Request.restore t c) =
      subst (Silent sv) (sym (restore-uniform sv now c t)) (restore-Silent t c)
  handle-Silent (Request.delete_permanent t c) =
      subst (Silent sv) (sym (deletion-uniform sv now c t)) (deletion-Silent t c)
  handle-Silent (Request.update_warehouse c name description address) =
      drop_reply-AllOrNothing _ (Editing.update_warehouse sv now c name description address)
        (update_warehouse-Silent c name description address)
  handle-Silent (Request.update_store_room c name description address) =
      drop_reply-AllOrNothing _ (Editing.update_store_room sv now c name description address)
        (update_store_room-Silent c name description address)
  handle-Silent (Request.update_custom_room c props room_type address) =
      drop_reply-AllOrNothing _ (Editing.update_custom_room sv now c props room_type address)
        (update_custom_room-Silent c props room_type address)
  handle-Silent (Request.change_type req) =
      silent_of_unchanged (handle_type_change sv now req) (handle_type_change-AllOrNothing req)
