-- ===== src/Storage/Handlers/Creation/Warehouses.antt =====
-- What a warehouse that has been created went through.
use stocka_server.Prelude.{ℕ, suc, ◌≡◌, true, false, none, [], ◌∷◌, ◌++◌, Text, trim, ◌⊎◌, text_eq}
use stocka_server.Shared.Outcome.{ok}
use stocka_server.Storage.Model.{warehouse, WarehouseModel}
use stocka_server.Storage.Lifecycle.{Aggregate}
use stocka_server.Storage.Events.{created}
use stocka_server.Storage.Capabilities.{Capabilities, can_create_warehouse, exceeds_warehouse_limit}
use stocka_server.Storage.Services.{Services, Server}
use stocka_server.Storage.Warehouse
use stocka_server.Storage.Warehouse.{warehouse_storage}
use stocka_server.Storage.Warehouse.Laws.{IsValid}
use stocka_server.Storage.Handlers.Creation
use stocka_server.Storage.Handlers.Creation.{CreateCommand, store_new}

module _ {W : Type 0} (sv : Services W) where
  -- The tenant's tier has warehouses, one more does not exceed its limit, and no active storage was found
  -- under the name as it was sent; what is stored is a valid active warehouse with the trimmed name,
  -- which was free too unless white space was sent around it; the answer is the new id, and one event
  -- announces the warehouse under its trimmed name.
  pub record Created (fresh : Text) (c : CreateCommand) (s : Server W) (uuid : Text) (s' : Server W)
      : Type 0 where
    pub capabilities : Capabilities
    pub asked : sv.capabilities c.tenant_uuid s.db ≡ ok capabilities
    pub has_warehouses : can_create_warehouse capabilities ≡ true
    pub count : ℕ
    pub counted : sv.warehouses.count c.tenant_uuid s.db ≡ ok count
    pub within_limit : exceeds_warehouse_limit capabilities (suc count) ≡ false
    pub name_passed : sv.storages.exists_active_name c.tenant_uuid c.name s.db ≡ ok false
    pub stored_name_free :
        (sv.storages.exists_active_name c.tenant_uuid (trim c.name) s.db ≡ ok false)
        ⊎ (text_eq (trim c.name) c.name ≡ false)
    pub made : Aggregate WarehouseModel
    pub valid : IsValid made.model
    pub stored_name : made.model.common.name ≡ trim c.name
    pub is_active : made.model.common.archived_at ≡ none
    pub container : ℕ
    pub before : W
    pub saved : Aggregate WarehouseModel
    pub stored : sv.warehouses.save made container before ≡ (ok saved, s'.db)
    pub answer : uuid ≡ fresh
    pub announced :
        s'.published
        ≡ s.published
          ++ created
              (record {
                storage_uuid = fresh;
                tenant_uuid = c.tenant_uuid;
                actor_uuid = c.actor_uuid;
              })
              warehouse
              (trim c.name)
            ∷ []
