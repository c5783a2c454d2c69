-- ===== src/Storage/Listing/Pages.antt =====
-- The pages of a listing.
use mathlib.Core.List.{Perm}
use mathlib.Core.List.Perm
use stocka_server.Prelude.{
  ℕ, zero, suc, ◌+◌, ◌*◌, ◌≤◌, ◌≡◌, refl, sym, ap, ◌∙◌, subst, Bool, List, [], ◌∷◌, ◌++◌, take,
  drop, length, arith, Text, map, All,
}
use stocka_server.Storage.View.{ItemView, from_warehouse, from_store_room, from_custom_room}
use stocka_server.Storage.Listing.{
  Container, selected_items, matching_items, list_item_views, list_storages, ListQuery, in_order,
}
use stocka_server.Storage.Listing.Sorted.{
  IsSorted, IsCollation, Precedes, sort-Perm, sort-All, in_order-IsSorted,
}
use stocka_server.Storage.Listing.Wanted.{IsWanted, selected_items-Splits}

module _ {A : Type 0} where
  take-add : (m n : ℕ) (xs : List A) → take (m + n) xs ≡ take m xs ++ take n (drop m xs)
  take-add zero n xs = ap (λ k. take k xs) {y = n} (omega arith)
  take-add (suc m) zero [] = ap (λ k. take k []) {y = suc m} (omega arith)
  take-add (suc m) (suc n) [] = ap (λ k. take k []) {y = suc (m + suc n)} (omega arith)
  take-add (suc m) n (x ∷ xs) =
      ap (λ k. take k (x ∷ xs)) {y = suc (m + n)} (omega arith)
      ∙ ap (λ ys. x ∷ ys) (take-add m n xs)

  take-all : (n : ℕ) (xs : List A) → length xs ≤ n → take n xs ≡ xs
  take-all zero [] h = refl
  take-all zero (x ∷ xs) h = ground arith
  take-all (suc n) [] h = refl
  take-all (suc n) (x ∷ xs) h = ap (λ ys. x ∷ ys) (take-all n xs (omega arith))

module _ (collates : Text → Text → Bool) (contains : Text → Text → Bool) (query : ListQuery)
    (c : Container) where
  -- The first `n` pages of a listing, one after the other.
  unfoldable pub pages : ℕ → List ItemView
  pages zero = []
  pages (suc n) =
      pages n ++ (list_storages collates contains (record query { page = suc n }) c).items

  pages-take :
      (n : ℕ)
      → pages n
        ≡ take (n * query.limit) (matching_items collates contains query (list_item_views c))
  unfolding pages list_storages matching_items list_item_views
  pages-take zero =
      ap (λ k. take k (matching_items collates contains query (list_item_views c))) {x = 0}
        {y = 0 * query.limit} (omega arith)
  pages-take (suc n) =
      let items = matching_items collates contains query (list_item_views c) in
      ap (λ xs. xs ++ take query.limit (drop (n * query.limit) items)) (pages-take n)
      ∙ sym (take-add (n * query.limit) query.limit items)
      ∙ ap (λ k. take k items) {x = n * query.limit + query.limit} {y = suc n * query.limit}
          (omega arith)

  -- Every storage of the tenant, as an item.
  abbrev pub all_storages : List ItemView
  all_storages =
      map from_warehouse c.warehouses
      ++ map from_store_room c.store_rooms
      ++ map from_custom_room c.custom_rooms

  -- A list of the wanted storages, in order: with the ones that are left out, all of them are
  -- storages of the tenant, each as often as the tenant has it; the listed ones, and no others, have
  -- the type and the status and the text in the name that the query asks for.
  pub record IsListing (listed : List ItemView) : Type 0 where
    pub left_out : List ItemView
    pub complete : Perm (listed ++ left_out) all_storages
    pub wanted : All (IsWanted contains query) listed
    pub unwanted : All (λ i. ¬ IsWanted contains query i) left_out
    pub sorted : IsSorted (Precedes collates contains query.sort_order) listed

  matching_items-IsListing :
      IsCollation collates → IsListing (matching_items collates contains query (list_item_views c))
  unfolding matching_items list_item_views
  matching_items-IsListing collation =
      let before = in_order collates contains query.sort_order in
      let selected = selected_items collates contains query all_storages in
      let splits = selected_items-Splits collates contains query all_storages in
      record {
        left_out = splits.rest;
        complete =
            Perm.trans (Perm.append_right splits.rest (sort-Perm before selected)) splits.complete;
        wanted = sort-All before (IsWanted contains query) selected splits.kept_meet;
        unwanted = splits.rest_fail;
        sorted = in_order-IsSorted collates contains collation query.sort_order selected;
      }

  -- The pages of a listing up to one that reaches the total hold, one after the other, exactly the
  -- storages of the tenant that the query asks for by type, status and name, each as often as the
  -- tenant has it, in the ascending or descending order of the names that the query asks for.
  pub list_storages-pages :
      (n : ℕ)
      → IsCollation collates
      → (list_storages collates contains query c).total ≤ n * query.limit
      → IsListing (pages n)
  unfolding list_storages list_item_views
  list_storages-pages n collation h =
      let items = matching_items collates contains query (list_item_views c) in
      subst IsListing (sym (pages-take n ∙ take-all (n * query.limit) items h))
        (matching_items-IsListing collation)
