-- ===== src/Storage/Warehouse/Laws.antt =====
-- What `WarehouseAggregate` guarantees of the storage that it holds.
use stocka_server.Prelude.{
  IfSome, ℕ, ◌≡◌, refl, ap, ◌⊎◌, inl, inr, Bool, true, Option, none, some, [], ◌∷◌, subst, Text,
  text_eq, text_eq_refl,
}
use stocka_server.Shared.Outcome.{
  Outcome, ok, err, throw, and_then-eq-ok, ok-injective, ◌>>◌, >>-ok,
}
use stocka_server.Storage.Exceptions.{StorageException}
use stocka_server.Storage.Values.{create_address}
use stocka_server.Storage.Values.Laws.{
  IsName, IsDescription, IsIcon, IsColor, IsAddress, create_address-IsFactory,
}
use stocka_server.Storage.Model.{
  WarehouseModel, Changes, CreateProps, no_changes, with_common, create_common,
  create_warehouse_model, warehouse,
}
use stocka_server.Storage.Events.{created}
use stocka_server.Storage.Update.{Draft, UpdateProps, finish, update_common}
use stocka_server.Storage.Update.Preserve.{
  IsEdit, Keeps, Keeps-then, Keeps-lift, Keeps-if, update_common-Keeps,
}
use stocka_server.Storage.Update.Unchanged.{current, update_common_unchanged}
use stocka_server.Storage.Valid.{
  IsValidCommon, IsFresh, Untouched, Untouched-refl, with_common-IsValidCommon,
  with_common-Untouched, create_common-IsFresh, create_common_again,
}
use stocka_server.Storage.Warehouse.{
  Warehouse, with_warehouse, warehouse_storage, reconstitute, create, for_type_change, update,
  update_address,
}

pub record IsValid (m : WarehouseModel) : Type 0 where
  pub common : IsValidCommon m.common
  pub address : IsAddress m.address

module _ (validate : Text → Bool) where
  pub model_sound :
      (now : ℕ) (props : CreateProps) (address : Text) {m : WarehouseModel}
      → create_warehouse_model validate now props address ≡ ok m
      → IsFresh now props m.common × IsValid m
  unfolding create_warehouse_model
  model_sound now props address h =
      let (common, ec, h1) = and_then-eq-ok (create_common validate now props) _ h in
      let (address, ea, h2) = and_then-eq-ok (create_address address) _ h1 in
      let fresh = create_common-IsFresh validate now props common ec in
      subst (λ n. IsFresh now props n.common × IsValid n) (ok-injective h2)
        (
          fresh,
          record {
            common = fresh.valid;
            address = (create_address-IsFactory.sound _ address ea).0;
          },
        )

  -- A created storage is valid, active, bears the given identity and the trimmed name, and has
  -- exactly one event to publish, which says so.
  pub create_warehouse_sound :
      (now : ℕ) (actor : Text) (props : CreateProps) (address : Text) {a : Warehouse}
      → create validate now actor props address ≡ ok a
      → IsFresh now props a.model.common
        × IsValid a.model
        × (a.uncommitted
            ≡ created
                (record {
                  storage_uuid = a.model.uuid;
                  tenant_uuid = a.model.tenant_uuid;
                  actor_uuid = actor;
                })
                warehouse
                a.model.name
              ∷ [])
  unfolding create
  create_warehouse_sound now actor props address h =
      let (m, em, h1) = and_then-eq-ok (create_warehouse_model validate now props address) _ h in
      let (fresh, valid) = model_sound now props address em in
      subst
        (λ b.
          IsFresh now props b.model.common
          × IsValid b.model
          × (b.uncommitted
              ≡ created
                  (record {
                    storage_uuid = b.model.uuid;
                    tenant_uuid = b.model.tenant_uuid;
                    actor_uuid = actor;
                  })
                  warehouse b.model.name
                ∷ []))
        (ok-injective h1) (fresh, valid, refl)

  -- A change of type from valid values never throws: the target has those very values, is
  -- active, and has no event of its own.
  pub warehouse_for_type_change_total :
      (now : ℕ) (props : CreateProps) (address : Text)
      → validate props.uuid ≡ true
      → validate props.tenant_uuid ≡ true
      → IsName props.name
      → IfSome IsDescription props.description
      → IsIcon props.icon
      → IsColor props.color
      → IsAddress address
      → for_type_change validate now props address
        ≡ ok (
            reconstitute (record {
              common = record {
                uuid = props.uuid;
                tenant_uuid = props.tenant_uuid;
                name = props.name;
                description = props.description;
                icon = props.icon;
                color = props.color;
                frozen_at = none;
                archived_at = none;
                created_at = now;
                updated_at = now;
                id = none;
              };
              address = address;
            }))
  unfolding for_type_change create_warehouse_model
  warehouse_for_type_change_total now props address u t n d i c a =
      rw (create_common_again validate now props u t n d i c)
        (rw (create_address-IsFactory.again address a))

nothing : IsEdit no_changes
nothing = record {
  name = tt;
  description = tt;
  icon = tt;
  color = tt;
  frozen_at = refl;
  archived_at = refl;
}

-- What every end of `update` leaves: a valid storage, whose identity and dates are untouched.
abbrev pub StillValid : Warehouse → Warehouse → Type 0
StillValid a b = IsValid b.model × Untouched a.model.common b.model.common

module _ (a : Warehouse) where
  abbrev Good : WarehouseModel → Type 0
  Good m = IsValid m × Untouched a.model.common m.common

  Good-closed :
      (now : ℕ) (c : Changes) (m : WarehouseModel)
      → IsEdit c
      → Good m
      → Good (with_warehouse now c none m)
  unfolding with_warehouse
  Good-closed now c m e (v, u) = (
    record { common = with_common-IsValidCommon now c m.common e v.common; address = v.address },
    with_common-Untouched now c a.model.common m.common (e.frozen_at, e.archived_at) u,
  )

  update_address-Keeps :
      (now : ℕ) (actor : Text) (v : Option Text) → Keeps Good (update_address now actor a v)
  unfolding update_address with_warehouse with_common
  update_address-Keeps now actor none d p = p
  update_address-Keeps now actor (some v) d p =
      Keeps-if Good (text_eq v a.model.address) _
        (Keeps-lift Good (create_address v) _ (λ s e d (v', u). (
          record {
            common = with_common-IsValidCommon now no_changes d.next.common nothing v'.common;
            address = (create_address-IsFactory.sound v s e).0;
          },
          with_common-Untouched now no_changes a.model.common d.next.common (refl, refl) u,
        )))
        d p

finish-StillValid :
    (a : Warehouse) (r : Outcome StorageException (Unit {0})) (d : Draft WarehouseModel)
    → IsValid a.model
    → Good a d.next
    → StillValid a (finish a (r, d)).1
      × (((finish a (r, d)).0 ≡ ok tt) ⊎ ((finish a (r, d)).1.model ≡ a.model))
finish-StillValid a (ok tt) d v g = (g, inl refl)
finish-StillValid a (err _) d v g = ((v, Untouched-refl a.model.common), inr refl)
finish-StillValid a (throw _) d v g = ((v, Untouched-refl a.model.common), inr refl)

-- `update` of a valid storage leaves a valid storage of the same identity and dates, and if it
-- does not succeed the model is the old one: it is all or nothing.
pub update_warehouse-StillValid :
    (now : ℕ) (actor : Text) (props : UpdateProps) (address : Option Text) (a : Warehouse)
    → IsValid a.model
    → StillValid a (update now actor props address a).1
      × (((update now actor props address a).0 ≡ ok tt)
          ⊎ ((update now actor props address a).1.model ≡ a.model))
unfolding update
update_warehouse-StillValid now actor props address a v =
    let d : Draft WarehouseModel = record { next = a.model; uncommitted = a.uncommitted } in
    let common = update_common now actor a props in
    let rest = update_address now actor a address in
    let result = (common >> rest) d in
    finish-StillValid a result.0 result.1 v (
      Keeps-then (Good a) common rest
        (update_common-Keeps (Good a) (Good-closed a) now actor a props)
        (update_address-Keeps a now actor address) d (v, Untouched-refl a.model.common))

-- Given the values that it has, a valid storage does not change and announces nothing.
pub update_warehouse_unchanged :
    (now : ℕ) (actor : Text) (a : Warehouse)
    → IsValid a.model
    → update now actor (current a.model.common) (some a.model.address) a ≡ (ok tt, a)
unfolding update update_address
update_warehouse_unchanged now actor a v =
    let d : Draft WarehouseModel = record { next = a.model; uncommitted = a.uncommitted } in
    ap (finish a) {y = (ok tt, d)} (
      >>-ok (update_common now actor a (current a.model.common)) _
        (update_common_unchanged now actor a d v.common) (rw (text_eq_refl a.model.address)))
