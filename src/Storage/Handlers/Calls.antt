-- ===== src/Storage/Handlers/Calls.antt =====
-- The commands of the storage context, one after the other, and what they keep of the database.
use stocka_server.Prelude.{ℕ, ◌≡◌, refl, inl, Option, none, some, List, [], ◌∷◌, Text}
use stocka_server.Shared.Outcome.{Outcome, ok, err, throw, refuse_if, lift}
use stocka_server.Shared.Rules.{Leaves}
use stocka_server.Storage.Exceptions.{StorageException}
use stocka_server.Storage.Lifecycle.{Aggregate, StorageModel}
use stocka_server.Storage.Warehouse.{warehouse_storage}
use stocka_server.Storage.Warehouse.Laws.{create_warehouse_sound}
use stocka_server.Storage.StoreRoom.{store_room_storage}
use stocka_server.Storage.StoreRoom.Laws.{create_store_room_sound}
use stocka_server.Storage.CustomRoom.{custom_room_storage}
use stocka_server.Storage.CustomRoom.Laws.{create_custom_room_sound}
use stocka_server.Storage.Services.{Repository, Services, Server, Handler, read}
use stocka_server.Storage.Services.Leaves.{read-Leaves}
use stocka_server.Storage.Handlers.Creation
use stocka_server.Storage.Handlers.Creation.{CreateCommand, require_container, store_new}
use stocka_server.Storage.Handlers.Maintains.{
  Holds, Maintains, Anything, Maintains-then, Maintains-after, Maintains-write,
}
use stocka_server.Storage.Handlers.Maintains.Kinds.{GoodWarehouse, GoodStoreRoom, GoodCustomRoom}
use stocka_server.Storage.Handlers.Requests.{Request, drop_reply, handle}
use stocka_server.Storage.Handlers.Requests.Invariant.{
  IsSound, drop_reply-Maintains, handle-Maintains,
}

-- A command, with the uuid that is generated for a new storage.
pub data Command : Type 0 where
  on_stored : Request → Command
  create_warehouse : Text → CreateCommand → Text → Command
  create_store_room : Text → CreateCommand → Option Text → Command
  create_custom_room :
      Text → CreateCommand → Option Text → Option Text → Text → Option Text → Command

module _ {W : Type 0} (sv : Services W) where
  unfoldable pub perform : ℕ → Command → Handler W (Unit {0})
  perform now (on_stored req) = handle sv now req
  perform now (create_warehouse fresh c address) =
      drop_reply (Creation.create_warehouse sv now fresh c address)
  perform now (create_store_room fresh c address) =
      drop_reply (Creation.create_store_room sv now fresh c address)
  perform now (create_custom_room fresh c icon color room_type address) =
      drop_reply (Creation.create_custom_room sv now fresh c icon color room_type address)

  -- Each at its own time, whatever the ones before have answered.
  unfoldable pub perform_all : List (ℕ × Command) → Server W → Server W
  perform_all [] s = s
  perform_all ((now, call) ∷ calls) s = perform_all calls (perform now call s).1

module _ {W : Type 0} (I : W → Type 0) (sv : Services W) (sound : IsSound I sv) where
  require_container-Leaves : (id : Option ℕ) → Leaves {S = Server W} (λ s. s) (require_container id)
  require_container-Leaves none s = refl
  require_container-Leaves (some id) s = refl

  lift-Maintains :
      {M : Type 0} (P : M → Type 0) (made : Outcome StorageException (Aggregate M))
      → ((a : Aggregate M) → made ≡ ok a → P a.model)
      → Maintains I (λ a. P a.model) (lift made)
  lift-Maintains P (ok a) h s i = (i, h a refl)
  lift-Maintains P (err e) h s i = (i, tt)
  lift-Maintains P (throw e) h s i = (i, tt)

  store_new-Maintains :
      {M : Type 0} ⦃k : StorageModel M⦄ (P : M → Type 0) (repo : Repository W M) (c : CreateCommand)
      (made : Outcome StorageException (Aggregate M))
      → Holds I P repo
      → ((a : Aggregate M) → made ≡ ok a → P a.model)
      → Maintains I (Anything I) (store_new sv repo c made)
  unfolding store_new
  store_new-Maintains P repo c made holds h =
      Maintains-after I (Anything I) (read (sv.storages.exists_active_name c.tenant_uuid c.name)) _
        (read-Leaves _ (sv.storages.exists_active_name c.tenant_uuid c.name))
        λ name_exists.
          Maintains-after I (Anything I) (refuse_if name_exists _) _ (λ _. refl)
            λ _.
              Maintains-write I (Anything I) (sv.storages.find_or_create c.tenant_uuid) _
                (sound.find_or_create c.tenant_uuid)
                λ container.
                  Maintains-after I (Anything I) (require_container container) _
                    (require_container-Leaves container)
                    λ id.
                      Maintains-then I (λ a. P a.model) (Anything I) (lift made) _
                        (lift-Maintains P made h)
                        λ a p.
                          Maintains-write I (Anything I) (repo.save a id) _
                            (λ w i. holds.saved a id w i p) λ _ s i. (i, tt)

  create_warehouse-Maintains :
      (now : ℕ) (fresh : Text) (c : CreateCommand) (address : Text)
      → Maintains I (Anything I) (Creation.create_warehouse sv now fresh c address)
  unfolding Creation.create_warehouse
  create_warehouse-Maintains now fresh c address =
      Maintains-after I (Anything I) (read (sv.capabilities c.tenant_uuid)) _
        (read-Leaves _ (sv.capabilities c.tenant_uuid))
        λ capabilities.
          Maintains-after I (Anything I) (refuse_if _ _) _ (λ _. refl)
            λ _.
              Maintains-after I (Anything I) (read (sv.warehouses.count c.tenant_uuid)) _
                (read-Leaves _ (sv.warehouses.count c.tenant_uuid))
                λ count.
                  Maintains-after I (Anything I) (refuse_if _ _) _ (λ _. refl)
                    λ _. store_new-Maintains GoodWarehouse sv.warehouses c _ sound.warehouses λ a h.
                      let (fresh, valid, _) =
                        create_warehouse_sound sv.validate now c.actor_uuid _ address h in
                      (valid, inl fresh.archived_at)

  create_store_room-Maintains :
      (now : ℕ) (fresh : Text) (c : CreateCommand) (address : Option Text)
      → Maintains I (Anything I) (Creation.create_store_room sv now fresh c address)
  unfolding Creation.create_store_room
  create_store_room-Maintains now fresh c address =
      Maintains-after I (Anything I) (read (sv.capabilities c.tenant_uuid)) _
        (read-Leaves _ (sv.capabilities c.tenant_uuid))
        λ capabilities.
          Maintains-after I (Anything I) (read (sv.store_rooms.count c.tenant_uuid)) _
            (read-Leaves _ (sv.store_rooms.count c.tenant_uuid))
            λ count.
              Maintains-after I (Anything I) (refuse_if _ _) _ (λ _. refl)
                λ _. store_new-Maintains GoodStoreRoom sv.store_rooms c _ sound.store_rooms λ a h.
                  let (fresh, valid, _) =
                    create_store_room_sound sv.validate now c.actor_uuid _ address h in
                  (valid, inl fresh.archived_at)

  create_custom_room-Maintains :
      (now : ℕ) (fresh : Text) (c : CreateCommand) (icon color : Option Text) (room_type : Text)
      (address : Option Text)
      → Maintains I
          (Anything I)
          (Creation.create_custom_room sv now fresh c icon color room_type address)
  unfolding Creation.create_custom_room
  create_custom_room-Maintains now fresh c icon color room_type address =
      Maintains-after I (Anything I) (read (sv.capabilities c.tenant_uuid)) _
        (read-Leaves _ (sv.capabilities c.tenant_uuid))
        λ capabilities.
          Maintains-after I (Anything I) (read (sv.custom_rooms.count c.tenant_uuid)) _
            (read-Leaves _ (sv.custom_rooms.count c.tenant_uuid))
            λ count.
              Maintains-after I (Anything I) (refuse_if _ _) _ (λ _. refl)
                λ _.
                  store_new-Maintains GoodCustomRoom sv.custom_rooms c _ sound.custom_rooms λ a h.
                    let (fresh, valid, _) =
                      create_custom_room_sound sv.validate now c.actor_uuid _ room_type address h in
                    (valid, inl fresh.archived_at)

  perform-Maintains : (now : ℕ) (call : Command) → Maintains I (Anything I) (perform sv now call)
  unfolding perform
  perform-Maintains now (on_stored req) = handle-Maintains I sv sound now req
  perform-Maintains now (create_warehouse fresh c address) =
      drop_reply-Maintains I (Creation.create_warehouse sv now fresh c address)
        (create_warehouse-Maintains now fresh c address)
  perform-Maintains now (create_store_room fresh c address) =
      drop_reply-Maintains I (Creation.create_store_room sv now fresh c address)
        (create_store_room-Maintains now fresh c address)
  perform-Maintains now (create_custom_room fresh c icon color room_type address) =
      drop_reply-Maintains I
        (Creation.create_custom_room sv now fresh c icon color room_type address)
        (create_custom_room-Maintains now fresh c icon color room_type address)

  -- Whatever commands are handled, one after the other, they keep an invariant of the database that
  -- says of the rows of the three tables that their fields are valid and that none is archived and
  -- frozen at once.
  pub perform_all-Keeps :
      (calls : List (ℕ × Command)) (s : Server W) → I s.db → I (perform_all sv calls s).db
  unfolding perform_all
  perform_all-Keeps [] s i = i
  perform_all-Keeps ((now, call) ∷ calls) s i =
      perform_all-Keeps calls (perform sv now call s).1 (perform-Maintains now call s i).0
