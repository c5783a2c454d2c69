-- ===== src/Storage/Listing/Wanted.antt =====
-- What the filters of a listing let through.
use mathlib.Core.List.{Perm, perm_middle}
use mathlib.Core.List.Perm
use stocka_server.Prelude.{
  ◌≡◌, refl, ap, ◌∙◌, sym, Bool, true, false, not, ◌&&◌, Option, none, some, is_some, List, [], ◌∷◌,
  ◌++◌, keep, Bool-cases, inl, inr, All, Text, subst,
}
use stocka_server.Storage.Model.{
  StorageStatus, StorageType, active, frozen, archived, warehouse, store_room, custom_room,
}
use stocka_server.Storage.View.{ItemView}
use stocka_server.Storage.Listing.{
  ListQuery, eq_type, filter_type, filter_status, filter_search, selected_items, is_active_item,
  is_archived_item, is_frozen_item,
}

-- A type is asked for: the item has it.
abbrev pub MeetsType : Option StorageType → ItemView → Type 0
MeetsType none i = Unit
MeetsType (some type) i = i.type ≡ type

-- A status is asked for: an archived item is archived, whether it is frozen or not.
abbrev pub MeetsStatus : Option StorageStatus → ItemView → Type 0
MeetsStatus none i = Unit
MeetsStatus (some active) i = (i.archived_at ≡ none) × (i.frozen_at ≡ none)
MeetsStatus (some frozen) i = ¬ (i.frozen_at ≡ none) × (i.archived_at ≡ none)
MeetsStatus (some archived) i = ¬ (i.archived_at ≡ none)

-- A text is looked for: it is in the name; the empty text is none.
abbrev pub MeetsSearch : (Text → Text → Bool) → Option Text → ItemView → Type 0
MeetsSearch contains none i = Unit
MeetsSearch contains (some []) i = Unit
MeetsSearch contains (some (c ∷ s)) i = contains i.name (c ∷ s) ≡ true

abbrev pub IsWanted : (Text → Text → Bool) → ListQuery → ItemView → Type 0
IsWanted contains query i =
    (MeetsType query.type i × MeetsStatus query.status i) × MeetsSearch contains query.search i

-- A test that answers whether a predicate holds.
abbrev Reflects : Type 0 → Bool → Type 0
Reflects P b = (b ≡ true → P) × (b ≡ false → ¬ P)

Reflects-true : Reflects Unit true
Reflects-true = (λ _. tt, λ h. cc h)

Reflects-eq : (b : Bool) → Reflects (b ≡ true) b
Reflects-eq b = (λ h. h, λ h k. cc (h, k))

Reflects-and : {P Q : Type 0} (b c : Bool) → Reflects P b → Reflects Q c → Reflects (P × Q) (b && c)
Reflects-and true c r s = (λ h. (r.0 refl, s.0 h), λ h pq. s.1 h pq.1)
Reflects-and false c r s = (λ h. cc h, λ h pq. r.1 refl pq.0)

module _ {A : Type 0} where
  some-Reflects : (o : Option A) → Reflects (¬ (o ≡ none)) (is_some o)
  some-Reflects none = (λ h. cc h, λ _ n. n refl)
  some-Reflects (some a) = (λ _ e. cc e, λ h. cc h)

  none-Reflects : (o : Option A) → Reflects (o ≡ none) (not (is_some o))
  none-Reflects none = (λ _. refl, λ h. cc h)
  none-Reflects (some a) = (λ h. cc h, λ _ e. cc e)

eq_type-Reflects : (t u : StorageType) → Reflects (t ≡ u) (eq_type t u)
eq_type-Reflects warehouse warehouse = (λ _. refl, λ h. cc h)
eq_type-Reflects warehouse store_room = (λ h. cc h, λ _ e. cc e)
eq_type-Reflects warehouse custom_room = (λ h. cc h, λ _ e. cc e)
eq_type-Reflects store_room warehouse = (λ h. cc h, λ _ e. cc e)
eq_type-Reflects store_room store_room = (λ _. refl, λ h. cc h)
eq_type-Reflects store_room custom_room = (λ h. cc h, λ _ e. cc e)
eq_type-Reflects custom_room warehouse = (λ h. cc h, λ _ e. cc e)
eq_type-Reflects custom_room store_room = (λ h. cc h, λ _ e. cc e)
eq_type-Reflects custom_room custom_room = (λ _. refl, λ h. cc h)

-- A filter keeps some of the items, each as often as it was there, and sets the rest aside.
pub record Splits (P : ItemView → Type 0) (items kept : List ItemView) : Type 0 where
  pub rest : List ItemView
  pub complete : Perm (kept ++ rest) items
  pub kept_meet : All P kept
  pub rest_fail : All (λ i. ¬ P i) rest

module _ (P : ItemView → Type 0) (test : ItemView → Bool)
    (reflects : (i : ItemView) → Reflects (P i) (test i)) where
  keep-Splits : (items : List ItemView) → Splits P items (keep test items)
  keep-Splits [] = record { rest = []; complete = Perm.refl _; kept_meet = tt; rest_fail = tt }
  keep-Splits (i ∷ items) =
      let s = keep-Splits items in
      elim (Bool-cases (test i)) [
        | inl e ↦ rw e (record {
          rest = s.rest;
          complete = Perm.cons i s.complete;
          kept_meet = ((reflects i).0 e, s.kept_meet);
          rest_fail = s.rest_fail;
        })
        | inr e ↦ rw e (record {
          rest = i ∷ s.rest;
          complete = Perm.trans (perm_middle (keep test items) s.rest) (Perm.cons i s.complete);
          kept_meet = s.kept_meet;
          rest_fail = ((reflects i).1 e, s.rest_fail);
        })
      ]

keep-all : (items : List ItemView) → items ≡ keep (λ _. true) items
keep-all [] = refl
keep-all (i ∷ items) = ap (λ r. i ∷ r) (keep-all items)

keep-keep :
    (p q : ItemView → Bool) (items : List ItemView)
    → keep q (keep p items) ≡ keep (λ i. p i && q i) items
keep-keep p q [] = refl
keep-keep p q (i ∷ items) = elim (Bool-cases (p i)) [
  | inl e ↦ elim (Bool-cases (q i)) [
    | inl f ↦ rw (e, f) (ap (λ r. i ∷ r) (keep-keep p q items))
    | inr f ↦ rw (e, f) (keep-keep p q items)
  ]
  | inr e ↦ rw e (keep-keep p q items)
]

-- A filter and the predicate that it stands for.
abbrev IsFilter : (ItemView → Type 0) → (List ItemView → List ItemView) → Type 0
IsFilter P f =
    (test : ItemView → Bool) × ((i : ItemView) → Reflects (P i) (test i))
    × ((items : List ItemView) → f items ≡ keep test items)

IsFilter-then :
    {P Q : ItemView → Type 0} {f g : List ItemView → List ItemView}
    → IsFilter P f
    → IsFilter Q g
    → IsFilter (λ i. P i × Q i) (λ items. g (f items))
IsFilter-then {f = f} {g = g} (p, rp, ep) (q, rq, eq) = (
  λ i. p i && q i,
  λ i. Reflects-and (p i) (q i) (rp i) (rq i),
  λ items. ap g (ep items) ∙ eq (keep p items) ∙ keep-keep p q items,
)

type-IsFilter : (o : Option StorageType) → IsFilter (MeetsType o) (filter_type o)
type-IsFilter none = (λ _. true, λ i. Reflects-true, keep-all)
type-IsFilter (some t) = (λ i. eq_type i.type t, λ i. eq_type-Reflects i.type t, λ items. refl)

status-IsFilter : (o : Option StorageStatus) → IsFilter (MeetsStatus o) (filter_status o)
status-IsFilter none = (λ _. true, λ i. Reflects-true, keep-all)
status-IsFilter (some active) = (
  is_active_item,
  λ i. Reflects-and _ _ (none-Reflects i.archived_at) (none-Reflects i.frozen_at),
  λ items. refl,
)
status-IsFilter (some frozen) = (
  is_frozen_item,
  λ i. Reflects-and _ _ (some-Reflects i.frozen_at) (none-Reflects i.archived_at),
  λ items. refl,
)
status-IsFilter (some archived) =
    (is_archived_item, λ i. some-Reflects i.archived_at, λ items. refl)

module _ (collates : Text → Text → Bool) (contains : Text → Text → Bool) where
  search-IsFilter :
      (o : Option Text) → IsFilter (MeetsSearch contains o) (filter_search collates contains o)
  search-IsFilter none = (λ _. true, λ i. Reflects-true, keep-all)
  search-IsFilter (some []) = (λ _. true, λ i. Reflects-true, keep-all)
  search-IsFilter (some (c ∷ s)) =
      (λ i. contains i.name (c ∷ s), λ i. Reflects-eq (contains i.name (c ∷ s)), λ items. refl)

  pub selected_items-Splits :
      (query : ListQuery) (items : List ItemView)
      → Splits (IsWanted contains query) items (selected_items collates contains query items)
  selected_items-Splits query items =
      let (test, reflects, same) =
        IsFilter-then (IsFilter-then (type-IsFilter query.type) (status-IsFilter query.status))
          (search-IsFilter query.search) in
      subst (Splits (IsWanted contains query) items) (sym (same items))
        (keep-Splits (IsWanted contains query) test reflects items)
