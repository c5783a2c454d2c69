-- ===== src/Storage/Listing/Summary.antt =====
-- The counts of a list of storages.
use stocka_server.Prelude.{
  ℕ, suc, ◌+◌, ◌≡◌, refl, ap, Bool, List, [], ◌∷◌, ◌++◌, map, keep, length, length-append,
  Option-cases, ◌⊎◌, inl, inr, arith, Text,
}
use stocka_server.Storage.Model.{StorageType, warehouse, store_room, custom_room}
use stocka_server.Storage.View.{ItemView, from_warehouse, from_store_room, from_custom_room}
use stocka_server.Storage.Listing.{
  Container, StatusSummary, eq_type, summary_of, compute_status_summary, list_item_views,
  list_storages, ListQuery,
}

abbrev pub count_of : StatusSummary → ℕ
count_of s = s.active_count + s.frozen_count + s.archived_count

summary_partition : (items : List ItemView) → count_of (summary_of items) ≡ length items
unfolding summary_of
summary_partition [] = omega arith
summary_partition (i ∷ items) = elim (Option-cases i.archived_at) [
  | inl a ↦ elim (Option-cases i.frozen_at) [
    | inl f ↦ rw (a, f) (omega (arith, summary_partition items))
    | inr (t, f) ↦ rw (a, f) (omega (arith, summary_partition items))
  ]
  | inr (t, a) ↦ elim (Option-cases i.frozen_at) [
    | inl f ↦ rw (a, f) (omega (arith, summary_partition items))
    | inr (t, f) ↦ rw (a, f) (omega (arith, summary_partition items))
  ]
]

type_cases : (t : StorageType) → (t ≡ warehouse) ⊎ (t ≡ store_room) ⊎ (t ≡ custom_room)
type_cases warehouse = inl refl
type_cases store_room = inr (inl refl)
type_cases custom_room = inr (inr refl)

types_partition :
    (items : List ItemView)
    → length (keep (λ i. eq_type i.type warehouse) items)
        + length (keep (λ i. eq_type i.type store_room) items)
        + length (keep (λ i. eq_type i.type custom_room) items)
      ≡ length items
types_partition [] = omega arith
types_partition (i ∷ items) = elim (type_cases i.type) [
  | inl e ↦ rw e (omega (arith, types_partition items))
  | inr (inl e) ↦ rw e (omega (arith, types_partition items))
  | inr (inr e) ↦ rw e (omega (arith, types_partition items))
]

length-map : {A B : Type 0} (f : A → B) (xs : List A) → length (map f xs) ≡ length xs
length-map f [] = refl
length-map f (x ∷ xs) = ap suc (length-map f xs)

length-list_item_views :
    (c : Container)
    → length (list_item_views c)
      ≡ length c.warehouses + length c.store_rooms + length c.custom_rooms
unfolding list_item_views
length-list_item_views c = omega (
  arith,
  length-append (map from_warehouse c.warehouses ++ map from_store_room c.store_rooms)
      (map from_custom_room c.custom_rooms),
  length-append (map from_warehouse c.warehouses) (map from_store_room c.store_rooms),
  length-map from_warehouse c.warehouses,
  length-map from_store_room c.store_rooms,
  length-map from_custom_room c.custom_rooms,
)

module _ (collates : Text → Text → Bool) (contains : Text → Text → Bool) (query : ListQuery)
    (c : Container) where
  -- The tabs of a listing count every storage of the tenant once, whatever the filters: over the three
  -- types and the three statuses, they add up to the number of storages.
  pub list_storages_counts :
      count_of (list_storages collates contains query c).type_summary.of_warehouse
        + count_of (list_storages collates contains query c).type_summary.of_store_room
        + count_of (list_storages collates contains query c).type_summary.of_custom_room
      ≡ length c.warehouses + length c.store_rooms + length c.custom_rooms
  unfolding list_storages compute_status_summary
  list_storages_counts =
      let all = list_item_views c in
      omega (
        arith,
        types_partition all,
        length-list_item_views c,
        summary_partition (keep (λ i. eq_type i.type warehouse) all),
        summary_partition (keep (λ i. eq_type i.type store_room) all),
        summary_partition (keep (λ i. eq_type i.type custom_room) all),
      )
