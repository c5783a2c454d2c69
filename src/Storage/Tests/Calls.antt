-- ===== src/Storage/Tests/Calls.antt =====
-- Commands one after the other on the database in memory, whose rows stay good.
use stocka_server.Prelude.{
  ℕ, ◌≡◌, refl, Bool, inl, inr, Bool-cases, none, some, List, [], ◌∷◌, find, All, All-keep, subst,
  codes,
}
use stocka_server.Storage.Model.{warehouse}
use stocka_server.Storage.Warehouse.{warehouse_storage}
use stocka_server.Storage.StoreRoom.{store_room_storage}
use stocka_server.Storage.CustomRoom.{custom_room_storage}
use stocka_server.Storage.Handlers.Transitions.{StorageCommand}
use stocka_server.Storage.Handlers.Maintains.Kinds.{GoodWarehouse, GoodStoreRoom, GoodCustomRoom}
use stocka_server.Storage.Handlers.Requests.{Request, warehouse_to_store_room}
use stocka_server.Storage.Handlers.Requests.Invariant.{IsSound}
use stocka_server.Storage.Handlers.Calls.{
  Command, on_stored, create_warehouse, perform_all, perform_all-Keeps,
}
use stocka_server.Storage.Tests.Database.{Rows, is_row, services}
use stocka_server.Storage.Tests.Commands.{empty_server, order}
use stocka_server.Storage.Tests.{uuid, tenant, actor, north_common-IsValidCommon, street}

-- Every row of the three tables is good.
abbrev Rows-Good : Rows → Type 0
Rows-Good w =
    All (λ a. GoodWarehouse a.model) w.warehouses
    × All (λ a. GoodStoreRoom a.model) w.store_rooms
    × All (λ a. GoodCustomRoom a.model) w.custom_rooms

find-All :
    {A : Type 0} (P : A → Type 0) (p : A → Bool) (xs : List A) (a : A)
    → All P xs
    → find p xs ≡ some a
    → P a
find-All P p [] a h e = cc
find-All P p (x ∷ xs) a (h, hs) e = elim (Bool-cases (p x)) [
  | inl y ↦ let same : x ≡ a = cc (rw y at e) in subst P same h
  | inr n ↦ find-All P p xs a hs (rw n at e)
]

services-IsSound : IsSound Rows-Good services
services-IsSound = record {
  warehouses = record {
    found = λ uuid w a i e.
        let row : find (is_row uuid) w.warehouses ≡ some a = cc e in
        find-All (λ a. GoodWarehouse a.model) (is_row uuid) w.warehouses a i.0 row;
    saved = λ a id w i p. ((p, All-keep _ _ w.warehouses i.0), i.1, i.2);
    deleted = λ uuid w i. (All-keep _ _ w.warehouses i.0, i.1, i.2);
  };
  store_rooms = record {
    found = λ uuid w a i e.
        let row : find (is_row uuid) w.store_rooms ≡ some a = cc e in
        find-All (λ a. GoodStoreRoom a.model) (is_row uuid) w.store_rooms a i.1 row;
    saved = λ a id w i p. (i.0, (p, All-keep _ _ w.store_rooms i.1), i.2);
    deleted = λ uuid w i. (i.0, All-keep _ _ w.store_rooms i.1, i.2);
  };
  custom_rooms = record {
    found = λ uuid w a i e.
        let row : find (is_row uuid) w.custom_rooms ≡ some a = cc e in
        find-All (λ a. GoodCustomRoom a.model) (is_row uuid) w.custom_rooms a i.2 row;
    saved = λ a id w i p. (i.0, i.1, (p, All-keep _ _ w.custom_rooms i.2));
    deleted = λ uuid w i. (i.0, i.1, All-keep _ _ w.custom_rooms i.2);
  };
  commit = λ w i. i;
  find_or_create = λ tenant w i. i;
}

abbrev own_command : StorageCommand
own_command = record { storage_uuid = uuid; tenant_uuid = tenant; actor_uuid = actor }

-- A warehouse is made, another is frozen, released and made a store room.
abbrev day : List (ℕ × Command)
day =
    (20, create_warehouse (codes "w9") order (codes "Street 9"))
    ∷ (30, on_stored (Request.freeze warehouse own_command))
    ∷ (40, on_stored (Request.unfreeze warehouse own_command))
    ∷ (
      50,
      on_stored (
          Request.change_type (
            warehouse_to_store_room own_command
              (record { name = none; description = none; address = none }))),
    )
    ∷ []

perform_all-Keeps_example : Rows-Good (perform_all services day empty_server).db
perform_all-Keeps_example =
    perform_all-Keeps Rows-Good services services-IsSound day empty_server
      (((record { common = north_common-IsValidCommon; address = street }, inl refl), tt), tt, tt)
