-- ===== src/Storage/Tests/Commands.antt =====
-- Commands and queries run on the database in memory, and the theorems about them.
use stocka_server.Prelude.{
  leb, length, ◌*◌, ◌≤◌, ◌≡◌, refl, Bool, true, text_eq, ◌⊎◌, none, some, [], ◌∷◌, Text, codes,
  arith,
}
use stocka_server.Shared.Outcome.{err, is_ok}
use stocka_server.Storage.Exceptions.{not_found}
use stocka_server.Storage.Model.{active, warehouse}
use stocka_server.Storage.Services.{Server}
use stocka_server.Storage.Warehouse
use stocka_server.Storage.Warehouse.{Warehouse, warehouse_storage}
use stocka_server.Storage.StoreRoom
use stocka_server.Storage.StoreRoom.{store_room_storage}
use stocka_server.Storage.CustomRoom.{custom_room_storage}
use stocka_server.Storage.Handlers.Creation
use stocka_server.Storage.Handlers.Creation.{CreateCommand}
use stocka_server.Storage.Handlers.Transitions.{StorageCommand}
use stocka_server.Storage.Handlers.Requests.{
  Request, TypeChangeRequest, warehouse_to_store_room, handle, handle_type_change,
}
use stocka_server.Storage.Handlers.Requests.Isolation.{foreign_refused}
use stocka_server.Storage.Handlers.Requests.Atomic.{handle_type_change-AllOrNothing, handle-Silent}
use stocka_server.Storage.View.{from_warehouse, from_store_room, from_custom_room}
use stocka_server.Storage.Listing.{Container, ListQuery, descending, list_storages}
use stocka_server.Storage.Listing.Sorted.{IsCollation}
use stocka_server.Storage.Listing.Pages.{pages, IsListing, list_storages-pages}
use stocka_server.Storage.Tests.Database.{Rows, services}
use stocka_server.Storage.Tests.{uuid, tenant, actor, north_common, north_model, north, hall}

abbrev pub empty_server : Server Rows
empty_server = record {
  db = record { warehouses = north ∷ []; store_rooms = []; custom_rooms = [] };
  published = [];
}

abbrev intruder : StorageCommand
intruder = record { storage_uuid = uuid; tenant_uuid = codes "t2"; actor_uuid = actor }

foreign_refused_example :
    handle services 20 (Request.archive warehouse intruder) empty_server
    ≡ (err (not_found uuid), empty_server)
unfolding text_eq
foreign_refused_example =
    foreign_refused services 20 (Request.archive warehouse intruder) empty_server refl

abbrev to_store_room : TypeChangeRequest
to_store_room =
    warehouse_to_store_room intruder (record { name = none; description = none; address = none })

handle_type_change-AllOrNothing_example :
    (is_ok (handle_type_change services 20 to_store_room empty_server).0 ≡ true)
    ⊎ ((handle_type_change services 20 to_store_room empty_server).1 ≡ empty_server)
handle_type_change-AllOrNothing_example =
    handle_type_change-AllOrNothing services 20 to_store_room empty_server

handle-Silent_example :
    (is_ok (handle services 20 (Request.change_type to_store_room) empty_server).0 ≡ true)
    ⊎ ((handle services 20 (Request.change_type to_store_room) empty_server).1.published ≡ [])
handle-Silent_example = handle-Silent services 20 (Request.change_type to_store_room) empty_server

-- One storage of each type, one of them frozen; names are compared by their lengths.
abbrev stock : Container
stock = record {
  warehouses =
      Warehouse.reconstitute
        (record north_model { common = record north_common { frozen_at = some 15 } })
      ∷ [];
  store_rooms =
      StoreRoom.reconstitute
        (record { common = record north_common { name = codes "Cellar" }; address = none })
      ∷ [];
  custom_rooms = hall ∷ [];
}

abbrev shorter : Text → Text → Bool
shorter a b = leb (length a) (length b)

abbrev query : ListQuery
query = record {
  type = none;
  status = some active;
  page = 1;
  limit = 1;
  sort_order = descending;
  search = none;
}

two_pages : (list_storages shorter (λ a b. true) query stock).total ≤ 2 * 1
unfolding list_storages from_warehouse from_store_room from_custom_room
two_pages = omega arith

shorter-IsCollation : IsCollation shorter
shorter-IsCollation = record {
  transitive = λ a b c h k. ground (arith, h, k);
  total = λ a b h. ground (arith, h);
}

list_storages-pages_example :
    IsListing shorter (λ a b. true) query stock (pages shorter (λ a b. true) query stock 2)
list_storages-pages_example =
    list_storages-pages shorter (λ a b. true) query stock 2 shorter-IsCollation two_pages

abbrev pub order : CreateCommand
order = record {
  tenant_uuid = tenant;
  actor_uuid = actor;
  name = codes " South ";
  description = none;
}

abbrev empty_rows : Rows
empty_rows = record { warehouses = []; store_rooms = []; custom_rooms = [] }

abbrev first_server : Server Rows
first_server = record { db = empty_rows; published = [] }

-- What the first order leaves.
abbrev after_order : Server Rows
after_order =
    (Creation.create_warehouse services 20 (codes "w9") order (codes "Street 9") first_server).1
