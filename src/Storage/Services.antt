-- ===== src/Storage/Services.antt =====
-- What the command handlers of the storage context are given: the repositories behind their
-- contracts (domain/contracts), the capabilities port, the unit of work and the event bus.

pub mod Leaves
use stocka_server.Prelude.{
  ℕ, Bool, true, false, not, Option, none, some, List, ◌++◌, if◌then◌else◌, Text, text_eq,
}
use stocka_server.Shared.Outcome.{Outcome, ok, err, throw, Act, ◌>>=◌, ◌>>◌, pure, fail, refuse_if}
use stocka_server.Storage.Exceptions.{StorageException, not_found, name_already_exists}
use stocka_server.Storage.Model.{WarehouseModel, StoreRoomModel, CustomRoomModel}
use stocka_server.Storage.Events.{StorageEvent}
use stocka_server.Storage.Lifecycle.{StorageModel, Aggregate, Transition, common_of}
use stocka_server.Storage.Capabilities.{Capabilities}

abbrev pub Query : Type 0 → Type 0 → Type 0
Query W A = W → Outcome StorageException A

-- `IWarehouseRepository`, `IStoreRoomRepository` and `ICustomRoomRepository`: `W` is the database.
pub record Repository (W M : Type 0) : Type 0 where
  pub count : Text → Query W ℕ
  pub find_by_uuid : Text → Query W (Option (Aggregate M))
  pub save : Aggregate M → ℕ → Act W StorageException (Aggregate M)
  pub delete_by_uuid : Text → Act W StorageException (Unit {0})

-- `IStorageRepository`; `find_or_create` answers with the id of the container.
pub record StorageRepository (W : Type 0) : Type 0 where
  pub find_or_create : Text → Act W StorageException (Option ℕ)
  pub find_id_by_tenant_uuid : Text → Query W (Option ℕ)
  pub exists_active_name : Text → Text → Query W Bool

pub record Services (W : Type 0) : Type 0 where
  pub storages : StorageRepository W
  pub warehouses : Repository W WarehouseModel
  pub store_rooms : Repository W StoreRoomModel
  pub custom_rooms : Repository W CustomRoomModel
  pub capabilities : Text → Query W Capabilities
  pub begin : Query W (Unit {0})
  pub commit : Act W StorageException (Unit {0})
  pub validate : Text → Bool  -- of the package `uuid`

-- The database, and what the event bus has been given.
pub record Server (W : Type 0) : Type 0 where
  pub db : W
  pub published : List StorageEvent

abbrev pub Handler : Type 0 → Type 0 → Type 0
Handler W A = Act (Server W) StorageException A

module _ {W : Type 0} where
  abbrev pub read : {A : Type 0} → Query W A → Handler W A
  read q s = (q s.db, s)

  abbrev pub write : {A : Type 0} → Act W StorageException A → Handler W A
  write m s = let (r, w) = m s.db in (r, record s { db = w })

  -- `mergeObjectContext(aggregate); aggregate.commit()`, and `eventBus.publish`
  abbrev pub publish : List StorageEvent → Handler W (Unit {0})
  publish events s = (ok tt, record s { published = s.published ++ events })

  -- How a transaction that began with the rows `w` ends: with the commit, or, after a throw or a
  -- commit that fails, with the rows as they were.
  abbrev pub end_commit :
      {A : Type 0}
      → A
      → W
      → Outcome StorageException (Unit {0}) × W
      → Outcome StorageException A × W
  end_commit a w (ok _, w') = (ok a, w')
  end_commit a w (err e, _) = (throw e, w)
  end_commit a w (throw e, _) = (throw e, w)

  abbrev pub end_transaction :
      {A : Type 0}
      → Services W
      → W
      → Outcome StorageException A × W
      → Outcome StorageException A × W
  end_transaction sv w (ok a, w') = end_commit a w (sv.commit w')
  end_transaction sv w (err e, _) = (err e, w)
  end_transaction sv w (throw e, _) = (throw e, w)

  abbrev pub begun :
      {A : Type 0}
      → Services W
      → Act W StorageException A
      → W
      → Outcome StorageException (Unit {0})
      → Outcome StorageException A × W
  begun sv fn w (ok _) = end_transaction sv w (fn w)
  begun sv fn w (err e) = (throw e, w)
  begun sv fn w (throw e) = (throw e, w)

  -- `uow.execute(fn)`
  unfoldable pub execute :
      {A : Type 0} → Services W → Act W StorageException A → Act W StorageException A
  execute sv fn w = begun sv fn w (sv.begin w)

  -- `if (!row || row.tenantUUID.toString() !== command.tenantUUID) return err(...)`
  abbrev pub own :
      {M : Type 0} ⦃k : StorageModel M⦄
      → Text
      → Text
      → Option (Aggregate M)
      → Handler W (Aggregate M)
  own storage_uuid tenant_uuid none = fail (not_found storage_uuid)
  own storage_uuid tenant_uuid (some a) =
      if not (text_eq (common_of a).tenant_uuid tenant_uuid)
      then fail (not_found storage_uuid)
      else pure a

  unfoldable pub find_own :
      {M : Type 0} ⦃k : StorageModel M⦄ → Repository W M → Text → Text → Handler W (Aggregate M)
  find_own repo storage_uuid tenant_uuid =
      read (repo.find_by_uuid storage_uuid) >>= own storage_uuid tenant_uuid

  -- `if (storageId === null) return err(...)`
  abbrev pub require_id : Text → Option ℕ → Handler W ℕ
  require_id storage_uuid none = fail (not_found storage_uuid)
  require_id storage_uuid (some id) = pure id

  unfoldable pub storage_id : Services W → Text → Text → Handler W ℕ
  storage_id sv storage_uuid tenant_uuid =
      read (sv.storages.find_id_by_tenant_uuid tenant_uuid) >>= require_id storage_uuid

  -- The name guard of the update and type-change handlers: a new name must not be in use.
  unfoldable pub check_name : Services W → Text → Option Text → Text → Handler W (Unit {0})
  check_name sv tenant_uuid none old = pure tt
  check_name sv tenant_uuid (some name) old =
      if text_eq name old
      then pure tt
      else (read (sv.storages.exists_active_name tenant_uuid name) >>= λ name_exists.
          refuse_if name_exists (name_already_exists name))

  -- A method of the aggregate: its `err` is returned, its exception goes on.
  abbrev pub after_method : {M : Type 0} → Transition M → Handler W (Aggregate M)
  after_method (ok _, a) s = (ok a, s)
  after_method (err e, a) s = (err e, s)
  after_method (throw e, a) s = (throw e, s)
