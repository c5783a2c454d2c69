-- ===== src/Storage/CustomRoom/Laws.antt =====
-- What `CustomRoomAggregate` guarantees of the storage that it holds.
use stocka_server.Prelude.{
  IfSome, ℕ, ◌≡◌, refl, ap, ◌⊎◌, inl, inr, Bool, true, Option, none, some, [], ◌∷◌, subst,
  if◌then◌else◌, Text, text_eq, text_eq_refl,
}
use stocka_server.Shared.Outcome.{
  Outcome, ok, err, throw, and_then-eq-ok, ok-injective, ◌>>◌, pure, >>-ok,
}
use stocka_server.Storage.Exceptions.{StorageException}
use stocka_server.Storage.Values.{create_room_type_name}
use stocka_server.Storage.Values.Laws.{
  IsName, IsDescription, IsIcon, IsColor, IsAddress, IsRoomTypeName,
  create_room_type_name-IsFactory,
}
use stocka_server.Storage.Model.{
  CustomRoomModel, Changes, CreateProps, no_changes, create_common, create_custom_room_model,
  custom_room, room_address,
}
use stocka_server.Storage.Events.{created}
use stocka_server.Storage.Update.{
  Draft, UpdateProps, finish, update_common, same_value, resolve_address_update,
}
use stocka_server.Storage.Update.Preserve.{
  IsEdit, Keeps, Keeps-then, Keeps-lift, Keeps-if, update_common-Keeps,
}
use stocka_server.Storage.Update.Unchanged.{current, update_common_unchanged, same_value_refl}
use stocka_server.Storage.Valid.{
  IsValidCommon, IsFresh, Untouched, Untouched-refl, with_common-IsValidCommon,
  with_common-Untouched, create_common-IsFresh, create_common_again, room_address_sound,
  room_address_again, resolve_address_update_sound, resolve_address_update_again,
}
use stocka_server.Storage.CustomRoom.{
  CustomRoom, with_custom_room, custom_room_storage, reconstitute, create, for_type_change, update,
  update_address, propose_address, update_room_type,
}

pub record IsValid (m : CustomRoomModel) : Type 0 where
  pub common : IsValidCommon m.common
  pub room_type : IsRoomTypeName m.room_type
  pub address : IfSome IsAddress m.address

module _ (validate : Text → Bool) where
  pub model_sound :
      (now : ℕ) (props : CreateProps) (room_type : Text) (address : Option Text)
      {m : CustomRoomModel}
      → create_custom_room_model validate now props room_type address ≡ ok m
      → IsFresh now props m.common × IsValid m
  unfolding create_custom_room_model
  model_sound now props room_type address h =
      let (common, ec, h1) = and_then-eq-ok (create_common validate now props) _ h in
      let (room_type, er, h2) = and_then-eq-ok (create_room_type_name room_type) _ h1 in
      let (address, ea, h3) = and_then-eq-ok (room_address address) _ h2 in
      let fresh = create_common-IsFresh validate now props common ec in
      subst (λ n. IsFresh now props n.common × IsValid n) (ok-injective h3)
        (
          fresh,
          record {
            common = fresh.valid;
            room_type = (create_room_type_name-IsFactory.sound _ room_type er).0;
            address = room_address_sound _ address ea;
          },
        )

  -- A created storage is valid, active, bears the given identity and the trimmed name, and has
  -- exactly one event to publish, which says so.
  pub create_custom_room_sound :
      (now : ℕ) (actor : Text) (props : CreateProps) (room_type : Text) (address : Option Text)
      {a : CustomRoom}
      → create validate now actor props room_type address ≡ ok a
      → IsFresh now props a.model.common
        × IsValid a.model
        × (a.uncommitted
            ≡ created
                (record {
                  storage_uuid = a.model.uuid;
                  tenant_uuid = a.model.tenant_uuid;
                  actor_uuid = actor;
                })
                custom_room
                a.model.name
              ∷ [])
  unfolding create
  create_custom_room_sound now actor props room_type address h =
      let (m, em, h1) =
        and_then-eq-ok (create_custom_room_model validate now props room_type address) _ h in
      let (fresh, valid) = model_sound now props room_type address em in
      subst
        (λ b.
          IsFresh now props b.model.common
          × IsValid b.model
          × (b.uncommitted
              ≡ created
                  (record {
                    storage_uuid = b.model.uuid;
                    tenant_uuid = b.model.tenant_uuid;
                    actor_uuid = actor;
                  })
                  custom_room b.model.name
                ∷ []))
        (ok-injective h1) (fresh, valid, refl)

  -- A change of type from valid values never throws: the target has those very values, is
  -- active, and has no event of its own.
  pub custom_room_for_type_change_total :
      (now : ℕ) (props : CreateProps) (room_type : Text) (address : Option Text)
      → validate props.uuid ≡ true
      → validate props.tenant_uuid ≡ true
      → IsName props.name
      → IfSome IsDescription props.description
      → IsIcon props.icon
      → IsColor props.color
      → IsRoomTypeName room_type
      → IfSome IsAddress address
      → for_type_change validate now props room_type address
        ≡ ok (
            reconstitute (record {
              common = record {
                uuid = props.uuid;
                tenant_uuid = props.tenant_uuid;
                name = props.name;
                description = props.description;
                icon = props.icon;
                color = props.color;
                frozen_at = none;
                archived_at = none;
                created_at = now;
                updated_at = now;
                id = none;
              };
              room_type = room_type;
              address = address;
            }))
  unfolding for_type_change create_custom_room_model
  custom_room_for_type_change_total now props room_type address u t n d i c r a =
      rw (create_common_again validate now props u t n d i c)
        (rw (create_room_type_name-IsFactory.again room_type r) (rw (room_address_again address a)))

nothing : IsEdit no_changes
nothing = record {
  name = tt;
  description = tt;
  icon = tt;
  color = tt;
  frozen_at = refl;
  archived_at = refl;
}

-- What every end of `update` leaves: a valid storage, whose identity and dates are untouched.
abbrev pub StillValid : CustomRoom → CustomRoom → Type 0
StillValid a b = IsValid b.model × Untouched a.model.common b.model.common

module _ (a : CustomRoom) where
  abbrev Good : CustomRoomModel → Type 0
  Good m = IsValid m × Untouched a.model.common m.common

  Good-closed :
      (now : ℕ) (c : Changes) (m : CustomRoomModel)
      → IsEdit c
      → Good m
      → Good (with_custom_room now c none none m)
  unfolding with_custom_room
  Good-closed now c m e (v, u) = (
    record {
      common = with_common-IsValidCommon now c m.common e v.common;
      room_type = v.room_type;
      address = v.address;
    },
    with_common-Untouched now c a.model.common m.common (e.frozen_at, e.archived_at) u,
  )

  stored_address-Keeps :
      (now : ℕ) (actor : Text) (s : Option Text)
      → IfSome IsAddress s
      → Keeps Good (propose_address now actor a s)
  unfolding with_custom_room
  stored_address-Keeps now actor s h d (v, u) = (
    record {
      common = with_common-IsValidCommon now no_changes d.next.common nothing v.common;
      room_type = v.room_type;
      address = h;
    },
    with_common-Untouched now no_changes a.model.common d.next.common (refl, refl) u,
  )

  update_address-Keeps :
      (now : ℕ) (actor : Text) (v : Option (Option Text))
      → Keeps Good (update_address now actor a v)
  unfolding update_address
  update_address-Keeps now actor none d p = p
  update_address-Keeps now actor (some v) d p =
      Keeps-lift Good (resolve_address_update v)
        (λ s. if same_value a.model.address s then pure tt else propose_address now actor a s)
        (λ s e.
          Keeps-if Good (same_value a.model.address s) (propose_address now actor a s)
            (stored_address-Keeps now actor s (resolve_address_update_sound v s e)))
        d p

  update_room_type-Keeps :
      (now : ℕ) (actor : Text) (v : Option Text) → Keeps Good (update_room_type now actor a v)
  unfolding update_room_type with_custom_room
  update_room_type-Keeps now actor none d p = p
  update_room_type-Keeps now actor (some v) d p =
      Keeps-if Good (text_eq v a.model.room_type) _
        (Keeps-lift Good (create_room_type_name v) _ (λ s e d (v', u). (
          record {
            common = with_common-IsValidCommon now no_changes d.next.common nothing v'.common;
            room_type = (create_room_type_name-IsFactory.sound v s e).0;
            address = v'.address;
          },
          with_common-Untouched now no_changes a.model.common d.next.common (refl, refl) u,
        )))
        d p

finish-StillValid :
    (a : CustomRoom) (r : Outcome StorageException (Unit {0})) (d : Draft CustomRoomModel)
    → IsValid a.model
    → Good a d.next
    → StillValid a (finish a (r, d)).1
      × (((finish a (r, d)).0 ≡ ok tt) ⊎ ((finish a (r, d)).1.model ≡ a.model))
finish-StillValid a (ok tt) d v g = (g, inl refl)
finish-StillValid a (err _) d v g = ((v, Untouched-refl a.model.common), inr refl)
finish-StillValid a (throw _) d v g = ((v, Untouched-refl a.model.common), inr refl)

-- `update` of a valid storage leaves a valid storage of the same identity and dates, and if it
-- does not succeed the model is the old one: it is all or nothing.
pub update_custom_room-StillValid :
    (now : ℕ) (actor : Text) (props : UpdateProps) (room_type : Option Text)
    (address : Option (Option Text)) (a : CustomRoom)
    → IsValid a.model
    → StillValid a (update now actor props room_type address a).1
      × (((update now actor props room_type address a).0 ≡ ok tt)
          ⊎ ((update now actor props room_type address a).1.model ≡ a.model))
unfolding update
update_custom_room-StillValid now actor props room_type address a v =
    let d : Draft CustomRoomModel = record { next = a.model; uncommitted = a.uncommitted } in
    let common = update_common now actor a props in
    let rest = update_room_type now actor a room_type >> update_address now actor a address in
    let result = (common >> rest) d in
    finish-StillValid a result.0 result.1 v (
      Keeps-then (Good a) common rest
        (update_common-Keeps (Good a) (Good-closed a) now actor a props)
        (Keeps-then (Good a) (update_room_type now actor a room_type)
          (update_address now actor a address) (update_room_type-Keeps a now actor room_type)
          (update_address-Keeps a now actor address))
        d (v, Untouched-refl a.model.common))

-- Given the values that it has, a valid storage does not change and announces nothing.
pub update_custom_room_unchanged :
    (now : ℕ) (actor : Text) (a : CustomRoom)
    → IsValid a.model
    → update now actor (current a.model.common) (some a.model.room_type) (some a.model.address) a
      ≡ (ok tt, a)
unfolding update update_address update_room_type
update_custom_room_unchanged now actor a v =
    let d : Draft CustomRoomModel = record { next = a.model; uncommitted = a.uncommitted } in
    ap (finish a) {y = (ok tt, d)} (
      >>-ok (update_common now actor a (current a.model.common)) _
        (update_common_unchanged now actor a d v.common)
        (rw (text_eq_refl a.model.room_type) (
          rw (resolve_address_update_again a.model.address v.address)
            (rw (same_value_refl a.model.address)))))
