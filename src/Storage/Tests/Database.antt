-- ===== src/Storage/Tests/Database.antt =====
-- A database in memory, with the services of the storage context over it, to run the handlers on.
use stocka_server.Prelude.{
  Bool, true, not, ◌||◌, ◌&&◌, some, List, ◌∷◌, length, keep, find, is_some, Text, text_eq,
}
use stocka_server.Prelude.Int.{pos}
use stocka_server.Shared.Outcome.{ok}
use stocka_server.Storage.Lifecycle.{StorageModel, Aggregate, common_of}
use stocka_server.Storage.Services.{Repository, Services}
use stocka_server.Storage.Warehouse.{Warehouse, warehouse_storage}
use stocka_server.Storage.StoreRoom.{StoreRoom, store_room_storage}
use stocka_server.Storage.CustomRoom.{CustomRoom, custom_room_storage}

pub record Rows : Type 0 where
  pub warehouses : List Warehouse
  pub store_rooms : List StoreRoom
  pub custom_rooms : List CustomRoom

module _ {M : Type 0} ⦃k : StorageModel M⦄ where
  abbrev of_tenant : Text → Aggregate M → Bool
  of_tenant tenant a =
      text_eq (common_of a).tenant_uuid tenant && not (is_some (common_of a).archived_at)

  abbrev bears : Text → Text → Aggregate M → Bool
  bears tenant name a = of_tenant tenant a && text_eq (common_of a).name name

  abbrev pub is_row : Text → Aggregate M → Bool
  is_row uuid a = text_eq (common_of a).uuid uuid

  abbrev without : Text → List (Aggregate M) → List (Aggregate M)
  without uuid = keep (λ a. not (is_row uuid a))

  -- A repository on one of the tables.
  abbrev table :
      (Rows → List (Aggregate M)) → (List (Aggregate M) → Rows → Rows) → Repository Rows M
  table rows set = record {
    count = λ tenant w. ok (length (keep (of_tenant tenant) (rows w)));
    find_by_uuid = λ uuid w. ok (find (is_row uuid) (rows w));
    save = λ a _id w. (ok a, set (a ∷ without (common_of a).uuid (rows w)) w);
    delete_by_uuid = λ uuid w. (ok tt, set (without uuid (rows w)) w);
  }

abbrev pub services : Services Rows
services = record {
  storages = record {
    find_or_create = λ tenant w. (ok (some 1), w);
    find_id_by_tenant_uuid = λ tenant w. ok (some 1);
    exists_active_name = λ tenant name w. ok (
        is_some (find (bears tenant name) w.warehouses)
        || is_some (find (bears tenant name) w.store_rooms)
        || is_some (find (bears tenant name) w.custom_rooms));
  };
  warehouses = table (λ w. w.warehouses) (λ rows w. record w { warehouses = rows });
  store_rooms = table (λ w. w.store_rooms) (λ rows w. record w { store_rooms = rows });
  custom_rooms = table (λ w. w.custom_rooms) (λ rows w. record w { custom_rooms = rows });
  capabilities = λ tenant w.
      ok (record { max_warehouses = pos 2; max_custom_rooms = pos 2; max_store_rooms = pos 2 });
  begin = λ w. ok tt;
  commit = λ w. (ok tt, w);
  validate = λ uuid. true;
}
