-- ===== src/Storage/Valid.antt =====
-- What a model's constructor guarantees of its fields, and that it accepts them again.
use stocka_server.Prelude.{
  IfSome, ℕ, ◌≡◌, refl, Bool, true, Option, none, some, [], ◌∷◌, arith, subst, or_else, Text, trim,
}
use stocka_server.Shared.Outcome.{Outcome, ok, and_then-eq-ok, ok-injective}
use stocka_server.Storage.Exceptions.{StorageException}
use stocka_server.Storage.Values.{
  create_name, create_description, create_icon, create_color, create_address,
}
use stocka_server.Storage.Values.Laws.{
  IsName, IsDescription, IsIcon, IsColor, IsAddress, create_name-IsFactory,
  create_description-IsFactory, create_icon-IsFactory, create_color-IsFactory,
  create_address-IsFactory,
}
use stocka_server.Storage.Model.{
  Common, CreateProps, Changes, with_common, if_truthy, new_uuid, create_common, room_address,
}
use stocka_server.Storage.Lifecycle.Machine.{SameIdentity}
use stocka_server.Storage.Update.{resolve_address_update}
use stocka_server.Storage.Update.Preserve.{IsEdit}

-- The value objects of the common fields.
pub record IsValidCommon (m : Common) : Type 0 where
  pub name : IsName m.name
  pub description : IfSome IsDescription m.description
  pub icon : IsIcon m.icon
  pub color : IsColor m.color

pub IfSome-or_else :
    {A : Type 0} (P : A → Type 0) (o : Option A) (a : A) → IfSome P o → P a → P (or_else o a)
IfSome-or_else P none a h p = p
IfSome-or_else P (some b) a h p = h

pub with_common-IsValidCommon :
    (now : ℕ) (c : Changes) (m : Common)
    → IsEdit c
    → IsValidCommon m
    → IsValidCommon (with_common now c m)
unfolding with_common
with_common-IsValidCommon now c m e v = record {
  name = IfSome-or_else IsName c.name m.name e.name v.name;
  description =
      IfSome-or_else (IfSome IsDescription) c.description m.description e.description v.description;
  icon = IfSome-or_else IsIcon c.icon m.icon e.icon v.icon;
  color = IfSome-or_else IsColor c.color m.color e.color v.color;
}

pub if_truthy_sound :
    {P : Text → Type 0} (create : Text → Outcome StorageException Text) (s v : Option Text)
    → ((t : Text) (w : Text) → create t ≡ ok w → P w)
    → if_truthy s create ≡ ok v
    → IfSome P v
if_truthy_sound create s none sound h = tt
if_truthy_sound create none (some v) sound h = cc
if_truthy_sound create (some []) (some v) sound h = cc
if_truthy_sound create (some (c ∷ s)) (some v) sound h = ground (arith, sound (c ∷ s) v)

-- A made model is active, bears the props' identity and the trimmed name, and is valid.
pub record IsFresh (now : ℕ) (props : CreateProps) (m : Common) : Type 0 where
  pub uuid : m.uuid ≡ props.uuid
  pub tenant_uuid : m.tenant_uuid ≡ props.tenant_uuid
  pub name : m.name ≡ trim props.name
  pub frozen_at : m.frozen_at ≡ none
  pub archived_at : m.archived_at ≡ none
  pub created_at : m.created_at ≡ now
  pub unsaved : m.id ≡ none
  pub valid : IsValidCommon m

module _ (validate : Text → Bool) where
  new_uuid_sound : (s v : Text) → new_uuid validate s ≡ ok v → v ≡ s
  unfolding new_uuid
  new_uuid_sound s v h = ground arith

  pub create_common-IsFresh :
      (now : ℕ) (props : CreateProps) (m : Common)
      → create_common validate now props ≡ ok m
      → IsFresh now props m
  unfolding create_common
  create_common-IsFresh now props m h =
      let (uuid, eu, h1) = and_then-eq-ok (new_uuid validate props.uuid) _ h in
      let (tenant, et, h2) = and_then-eq-ok (new_uuid validate props.tenant_uuid) _ h1 in
      let (name, en, h3) = and_then-eq-ok (create_name props.name) _ h2 in
      let (description, ed, h4) =
        and_then-eq-ok (if_truthy props.description create_description) _ h3 in
      let (icon, ei, h5) = and_then-eq-ok (create_icon props.icon) _ h4 in
      let (color, ec, h6) = and_then-eq-ok (create_color props.color) _ h5 in
      subst (IsFresh now props) (ok-injective h6) (record {
        uuid = new_uuid_sound props.uuid uuid eu;
        tenant_uuid = new_uuid_sound props.tenant_uuid tenant et;
        name = (create_name-IsFactory.sound props.name name en).1;
        frozen_at = refl;
        archived_at = refl;
        created_at = refl;
        unsaved = refl;
        valid = record {
          name = (create_name-IsFactory.sound props.name name en).0;
          description =
              if_truthy_sound create_description props.description description
                (λ t w e. (create_description-IsFactory.sound t w e).0) ed;
          icon = (create_icon-IsFactory.sound props.icon icon ei).0;
          color = (create_color-IsFactory.sound props.color color ec).0;
        };
      })

  -- A valid description is accepted again. (Five units or more are not falsy.)
  if_truthy_again :
      (d : Option Text) → IfSome IsDescription d → if_truthy d create_description ≡ ok d
  if_truthy_again none h = refl
  if_truthy_again (some []) h = absurd (omega (arith, h))
  if_truthy_again (some (c ∷ s)) h = rw (create_description-IsFactory.again (c ∷ s) h)

  -- The fields of a valid model make a valid model again: no constructor throws.
  pub create_common_again :
      (now : ℕ) (props : CreateProps)
      → validate props.uuid ≡ true
      → validate props.tenant_uuid ≡ true
      → IsName props.name
      → IfSome IsDescription props.description
      → IsIcon props.icon
      → IsColor props.color
      → create_common validate now props
        ≡ ok (record {
          uuid = props.uuid;
          tenant_uuid = props.tenant_uuid;
          name = props.name;
          description = props.description;
          icon = props.icon;
          color = props.color;
          frozen_at = none;
          archived_at = none;
          created_at = now;
          updated_at = now;
          id = none;
        })
  unfolding create_common new_uuid
  create_common_again now props u t n d i c =
      rw (u, t, create_name-IsFactory.again props.name n)
        (rw (if_truthy_again props.description d) (
          rw
            (create_icon-IsFactory.again props.icon i, create_color-IsFactory.again props.color c)))

-- What an edit leaves alone: whose storage it is, and its dates.
pub record Untouched (m n : Common) : Type 0 where
  pub identity : SameIdentity m n
  pub frozen_at : n.frozen_at ≡ m.frozen_at
  pub archived_at : n.archived_at ≡ m.archived_at
  pub id : n.id ≡ m.id

pub with_common-Untouched :
    (now : ℕ) (c : Changes) (m n : Common)
    → (c.frozen_at ≡ none) × (c.archived_at ≡ none)
    → Untouched m n
    → Untouched m (with_common now c n)
unfolding with_common
with_common-Untouched now c m n e u = record {
  identity = u.identity;
  frozen_at = rw e.0 u.frozen_at;
  archived_at = rw e.1 u.archived_at;
  id = u.id;
}

pub Untouched-refl : (m : Common) → Untouched m m
Untouched-refl m = record {
  identity = (refl, refl, refl);
  frozen_at = refl;
  archived_at = refl;
  id = refl;
}

-- The address of a room, which may be absent.
IsAddress-sound : (t w : Text) → create_address t ≡ ok w → IsAddress w
IsAddress-sound t w e = (create_address-IsFactory.sound t w e).0

pub room_address_sound : (a v : Option Text) → room_address a ≡ ok v → IfSome IsAddress v
room_address_sound none none h = tt
room_address_sound none (some v) h = cc
room_address_sound (some s) v h = if_truthy_sound create_address (some (trim s)) v IsAddress-sound h

pub resolve_address_update_sound :
    (a v : Option Text) → resolve_address_update a ≡ ok v → IfSome IsAddress v
unfolding resolve_address_update
resolve_address_update_sound none none h = tt
resolve_address_update_sound none (some v) h = cc
resolve_address_update_sound (some s) v h =
    if_truthy_sound create_address (some (trim s)) v IsAddress-sound h

truthy_address_again : (s : Text) → IsAddress s → if_truthy (some s) create_address ≡ ok (some s)
truthy_address_again [] h = absurd (omega (arith, h))
truthy_address_again (c ∷ s) h = rw (create_address-IsFactory.again (c ∷ s) h)

-- An address that is there is kept as it is by both ways of setting it.
pub room_address_again : (a : Option Text) → IfSome IsAddress a → room_address a ≡ ok a
room_address_again none h = refl
room_address_again (some s) h = rw h.trimmed (truthy_address_again s h)

pub resolve_address_update_again :
    (a : Option Text) → IfSome IsAddress a → resolve_address_update a ≡ ok a
unfolding resolve_address_update
resolve_address_update_again none h = refl
resolve_address_update_again (some s) h = rw h.trimmed (truthy_address_again s h)
