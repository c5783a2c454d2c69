-- ===== src/Storage/Listing.antt =====
-- The read side: `StorageAggregate` (domain/aggregates/storage.aggregate.ts), `ListStoragesHandler` and
-- `GetStorageHandler` (application/queries).
pub mod Summary
pub mod Sorted
pub mod Wanted
pub mod Pages
use stocka_server.Prelude.{
  ℕ, zero, suc, ◌*◌, Bool, true, false, not, ◌&&◌, Option, none, some, List, [], ◌∷◌, ◌++◌, map,
  keep, find, take, drop, length, is_some, if◌then◌else◌, Text, text_eq,
}
use stocka_server.Shared.Outcome.{Outcome, ok, err, and_then}
use stocka_server.Storage.Exceptions.{StorageException, not_found}
use stocka_server.Storage.Model.{
  StorageStatus, StorageType, active, frozen, archived, warehouse, store_room, custom_room,
}
use stocka_server.Storage.View.{ItemView, from_warehouse, from_store_room, from_custom_room}
use stocka_server.Storage.Warehouse.{Warehouse}
use stocka_server.Storage.StoreRoom.{StoreRoom}
use stocka_server.Storage.CustomRoom.{CustomRoom}

-- `StorageAggregate`, as far as views are made of it.
pub record Container : Type 0 where
  pub warehouses : List Warehouse
  pub store_rooms : List StoreRoom
  pub custom_rooms : List CustomRoom

-- `listItemViews`: the three loops, each of which pushes one view for each item.
unfoldable pub list_item_views : Container → List ItemView
list_item_views c =
    map from_warehouse c.warehouses
    ++ map from_store_room c.store_rooms
    ++ map from_custom_room c.custom_rooms

-- `findItemView`
unfoldable pub find_item_view : Text → Container → Option ItemView
unfolding list_item_views
find_item_view uuid c = find (λ v. text_eq v.uuid uuid) (list_item_views c)

-- `GetStorageHandler.execute`, on the tenant's container.
unfoldable pub get_storage : Text → Container → Outcome StorageException ItemView
unfolding find_item_view
get_storage storage_uuid c = elim (find_item_view storage_uuid c) [
  | none ↦ err (not_found storage_uuid)
  | some view ↦ ok view
]

pub record StatusSummary : Type 0 where
  pub active_count : ℕ
  pub frozen_count : ℕ
  pub archived_count : ℕ

pub record TypeSummary : Type 0 where
  pub of_warehouse : StatusSummary
  pub of_store_room : StatusSummary
  pub of_custom_room : StatusSummary

-- The tests of the filters.
abbrev pub is_active_item : ItemView → Bool
is_active_item i = not (is_some i.archived_at) && not (is_some i.frozen_at)

abbrev pub is_frozen_item : ItemView → Bool
is_frozen_item i = is_some i.frozen_at && not (is_some i.archived_at)

abbrev pub is_archived_item : ItemView → Bool
is_archived_item i = is_some i.archived_at

-- `===` on the two enums
abbrev pub eq_type : StorageType → StorageType → Bool
eq_type warehouse warehouse = true
eq_type store_room store_room = true
eq_type custom_room custom_room = true
eq_type _ _ = false

unfoldable pub summary_of : List ItemView → StatusSummary
summary_of items = record {
  active_count = length (keep is_active_item items);
  frozen_count = length (keep is_frozen_item items);
  archived_count = length (keep is_archived_item items);
}

-- `computeStatusSummary`
unfoldable pub compute_status_summary : List ItemView → StorageType → StatusSummary
unfolding summary_of
compute_status_summary items type = summary_of (keep (λ i. eq_type i.type type) items)

abbrev pub filter_type : Option StorageType → List ItemView → List ItemView
filter_type none items = items
filter_type (some type) items = keep (λ i. eq_type i.type type) items

abbrev pub filter_status : Option StorageStatus → List ItemView → List ItemView
filter_status none items = items
filter_status (some active) items = keep is_active_item items
filter_status (some archived) items = keep is_archived_item items
filter_status (some frozen) items = keep is_frozen_item items

pub data SortOrder : Type 0 where
  ascending descending : SortOrder

pub record ListQuery : Type 0 where
  pub type : Option StorageType
  pub status : Option StorageStatus
  pub page : ℕ
  pub limit : ℕ
  pub sort_order : SortOrder
  pub search : Option Text

pub record ItemPage : Type 0 where
  pub items : List ItemView
  pub total : ℕ
  pub summary : StatusSummary
  pub type_summary : TypeSummary

-- `Array.prototype.sort`, which is stable: `before x y` says that the comparison of x with y is not
-- positive.
module _ (before : ItemView → ItemView → Bool) where
  abbrev pub insert : ItemView → List ItemView → List ItemView
  insert x [] = x ∷ []
  insert x (y ∷ ys) = let rest = insert x ys in if before x y then x ∷ y ∷ ys else y ∷ rest

  abbrev pub sort : List ItemView → List ItemView
  sort [] = []
  sort (x ∷ xs) = insert x (sort xs)

-- `items.slice(skip, skip + limit)`, where `skip` is `(page - 1) * limit`: pages count from 1, and of
-- page 0 the slice ends at 0.
abbrev pub page_of : ℕ → ℕ → List ItemView → List ItemView
page_of zero limit items = []
page_of (suc previous) limit items = take limit (drop (previous * limit) items)

-- The language's comparison of names (`a.localeCompare(b) <= 0`), and its test whether a name contains a
-- text in lower case (`toLowerCase`, `includes`), which depend on its tables of characters.
module _ (collates : Text → Text → Bool) (contains : Text → Text → Bool) where
  -- `if (query.search)`: the empty text is no search.
  abbrev pub filter_search : Option Text → List ItemView → List ItemView
  filter_search none items = items
  filter_search (some []) items = items
  filter_search (some (c ∷ s)) items = keep (λ i. contains i.name (c ∷ s)) items

  abbrev pub in_order : SortOrder → ItemView → ItemView → Bool
  in_order ascending a b = collates a.name b.name
  in_order descending a b = collates b.name a.name

  -- The items that the filters leave.
  abbrev pub selected_items : ListQuery → List ItemView → List ItemView
  selected_items query items =
      filter_search query.search (filter_status query.status (filter_type query.type items))

  -- The same in order.
  unfoldable pub matching_items : ListQuery → List ItemView → List ItemView
  matching_items query items = sort (in_order query.sort_order) (selected_items query items)

  -- `ListStoragesHandler.execute`, on the tenant's container.
  unfoldable pub list_storages : ListQuery → Container → ItemPage
  unfolding list_item_views compute_status_summary summary_of matching_items
  list_storages query c =
      let all_items = list_item_views c in
      let items = matching_items query all_items in
      record {
        items = page_of query.page query.limit items;
        total = length items;
        summary = summary_of (filter_type query.type all_items);
        type_summary = record {
          of_warehouse = compute_status_summary all_items warehouse;
          of_store_room = compute_status_summary all_items store_room;
          of_custom_room = compute_status_summary all_items custom_room;
        };
      }
