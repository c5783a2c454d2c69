-- ===== src/Storage/Handlers/Requests/Isolation.antt =====
-- A tenant's commands do not reach another tenant's storages.
use stocka_server.Prelude.{ℕ, ◌≡◌, refl, ap, ◌∙◌, Option, none, some, Text}
use stocka_server.Shared.Outcome.{Outcome, ok, err, throw, resume}
use stocka_server.Storage.Exceptions.{StorageException, not_found}
use stocka_server.Storage.Model.{StorageType, warehouse, store_room, custom_room}
use stocka_server.Storage.Lifecycle.{StorageModel, Aggregate}
use stocka_server.Storage.Warehouse.{warehouse_storage}
use stocka_server.Storage.StoreRoom.{store_room_storage}
use stocka_server.Storage.CustomRoom.{custom_room_storage}
use stocka_server.Storage.Services.{Repository, Services, Server, own, find_own}
use stocka_server.Storage.Handlers.Transitions
use stocka_server.Storage.Handlers.Editing
use stocka_server.Storage.Handlers.TypeChange
use stocka_server.Storage.Handlers.Requests.{
  Request, IsForeign, NotOwned, command_of, source_of, drop_reply, handle_type_change, handle,
  store_room_to_warehouse, custom_room_to_warehouse, warehouse_to_store_room,
  custom_room_to_store_room, warehouse_to_custom_room, store_room_to_custom_room,
}
use stocka_server.Storage.Handlers.Requests.Uniform.{
  storage_of, table_of, handle_transition, handle_restore, handle_deletion, archive-uniform,
  freeze-uniform, unfreeze-uniform, restore-uniform, deletion-uniform,
}
use stocka_server.Storage.Lifecycle.Machine
use stocka_server.Storage.Lifecycle.Machine.{Operation}
use stocka_server.Storage.Handlers.Transitions.{StorageCommand}

own_foreign :
    {W M : Type 0} ⦃k : StorageModel M⦄ (storage tenant : Text)
    (r : Outcome StorageException (Option (Aggregate M))) (s : Server W)
    → IsForeign tenant r
    → resume (own storage tenant) (r, s) ≡ (err (not_found storage), s)
own_foreign storage tenant (ok none) s h = refl
own_foreign storage tenant (ok (some a)) s h = rw h
own_foreign storage tenant (err _) s h = absurd h
own_foreign storage tenant (throw _) s h = absurd h

-- The guard at the head of every handler.
pub find_own_foreign :
    {W M : Type 0} ⦃k : StorageModel M⦄ (repo : Repository W M) (storage tenant : Text)
    (s : Server W)
    → IsForeign tenant (repo.find_by_uuid storage s.db)
    → find_own repo storage tenant s ≡ (err (not_found storage), s)
unfolding find_own
find_own_foreign repo storage tenant s h =
    own_foreign storage tenant (repo.find_by_uuid storage s.db) s h

module _ {W : Type 0} (sv : Services W) (now : ℕ) where
  module _ (t : StorageType) (c : StorageCommand) (s : Server W)
      (h : IsForeign ⦃k = storage_of t⦄ c.tenant_uuid
        ((table_of sv t).find_by_uuid c.storage_uuid s.db)) where
    transition_refused :
        (op : Operation)
        → drop_reply (handle_transition sv now t c op) s ≡ (err (not_found c.storage_uuid), s)
    unfolding Transitions.transition_handler
    transition_refused op =
        rw (find_own_foreign ⦃k = storage_of t⦄ (table_of sv t) c.storage_uuid c.tenant_uuid s h)

    restore_refused : drop_reply (handle_restore sv now t c) s ≡ (err (not_found c.storage_uuid), s)
    unfolding Transitions.restore_handler
    restore_refused =
        rw (find_own_foreign ⦃k = storage_of t⦄ (table_of sv t) c.storage_uuid c.tenant_uuid s h)

    deletion_refused :
        drop_reply (handle_deletion sv now t c) s ≡ (err (not_found c.storage_uuid), s)
    unfolding Transitions.delete_handler
    deletion_refused =
        rw (find_own_foreign ⦃k = storage_of t⦄ (table_of sv t) c.storage_uuid c.tenant_uuid s h)

  NotOwned-IsForeign :
      (t : StorageType) (c : StorageCommand) (w : W)
      → NotOwned sv t c w
      → IsForeign ⦃k = storage_of t⦄ c.tenant_uuid ((table_of sv t).find_by_uuid c.storage_uuid w)
  NotOwned-IsForeign warehouse c w h = h
  NotOwned-IsForeign store_room c w h = h
  NotOwned-IsForeign custom_room c w h = h

  -- Whatever the command about a storage that the tenant does not own, it answers that there is no
  -- such storage, changes no row and publishes nothing.
  pub foreign_refused :
      (req : Request) (s : Server W)
      → NotOwned sv (source_of req) (command_of req) s.db
      → handle sv now req s ≡ (err (not_found (command_of req).storage_uuid), s)
  unfolding handle handle_type_change Editing.update_warehouse Editing.update_store_room
      Editing.update_custom_room TypeChange.change_store_room_to_warehouse
      TypeChange.change_custom_room_to_warehouse TypeChange.change_warehouse_to_store_room
      TypeChange.change_custom_room_to_store_room TypeChange.change_warehouse_to_custom_room
      TypeChange.change_store_room_to_custom_room
  foreign_refused (Request.archive t c) s h =
      ap (λ m. m s) (archive-uniform sv now c t)
      ∙ transition_refused t c s (NotOwned-IsForeign t c s.db h) Machine.archive
  foreign_refused (Request.freeze t c) s h =
      ap (λ m. m s) (freeze-uniform sv now c t)
      ∙ transition_refused t c s (NotOwned-IsForeign t c s.db h) Machine.freeze
  foreign_refused (Request.unfreeze t c) s h =
      ap (λ m. m s) (unfreeze-uniform sv now c t)
      ∙ transition_refused t c s (NotOwned-IsForeign t c s.db h) Machine.unfreeze
  foreign_refused (Request.restore t c) s h =
      ap (λ m. m s) (restore-uniform sv now c t)
      ∙ restore_refused t c s (NotOwned-IsForeign t c s.db h)
  foreign_refused (Request.delete_permanent t c) s h =
      ap (λ m. m s) (deletion-uniform sv now c t)
      ∙ deletion_refused t c s (NotOwned-IsForeign t c s.db h)
  foreign_refused (Request.update_warehouse c _ _ _) s h =
      rw (find_own_foreign sv.warehouses c.storage_uuid c.tenant_uuid s h)
  foreign_refused (Request.update_store_room c _ _ _) s h =
      rw (find_own_foreign sv.store_rooms c.storage_uuid c.tenant_uuid s h)
  foreign_refused (Request.update_custom_room c _ _ _) s h =
      rw (find_own_foreign sv.custom_rooms c.storage_uuid c.tenant_uuid s h)
  foreign_refused (Request.change_type (store_room_to_warehouse c _)) s h =
      rw (find_own_foreign sv.store_rooms c.storage_uuid c.tenant_uuid s h)
  foreign_refused (Request.change_type (custom_room_to_warehouse c _)) s h =
      rw (find_own_foreign sv.custom_rooms c.storage_uuid c.tenant_uuid s h)
  foreign_refused (Request.change_type (warehouse_to_store_room c _)) s h =
      rw (find_own_foreign sv.warehouses c.storage_uuid c.tenant_uuid s h)
  foreign_refused (Request.change_type (custom_room_to_store_room c _)) s h =
      rw (find_own_foreign sv.custom_rooms c.storage_uuid c.tenant_uuid s h)
  foreign_refused (Request.change_type (warehouse_to_custom_room c _)) s h =
      rw (find_own_foreign sv.warehouses c.storage_uuid c.tenant_uuid s h)
  foreign_refused (Request.change_type (store_room_to_custom_room c _)) s h =
      rw (find_own_foreign sv.store_rooms c.storage_uuid c.tenant_uuid s h)
