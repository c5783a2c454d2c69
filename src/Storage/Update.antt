-- ===== src/Storage/Update.antt =====
-- The `update` methods of the three aggregates (domain/aggregates), field by field: what each
-- block of the method does to `next` and to the collected events.
pub mod Preserve
pub mod Unchanged
use stocka_server.Prelude.{
  ℕ, Bool, true, false, Option, none, some, List, [], ◌∷◌, ◌++◌, if◌then◌else◌, Text, text_eq, trim,
}
use stocka_server.Shared.Outcome.{Outcome, ok, err, throw, and_then, Act, ◌>>=◌, ◌>>◌, pure, lift}
use stocka_server.Storage.Exceptions.{StorageException}
use stocka_server.Storage.Values.{
  create_name, create_description, create_icon, create_color, create_address,
}
use stocka_server.Storage.Model.{Changes, no_changes, if_truthy}
use stocka_server.Storage.Events.{
  StorageEvent, name_changed, description_changed, icon_changed, color_changed,
}
use stocka_server.Storage.Lifecycle.{StorageModel, Aggregate, Transition, common_of, subject}

-- The local variable `next`, and the events that `apply` has collected.
pub record Draft (M : Type 0) : Type 0 where
  pub next : M
  pub uncommitted : List StorageEvent

abbrev pub Step : Type 0 → Type 0
Step M = Act (Draft M) StorageException (Unit {0})

-- `previous !== nextValue` on `string | null`
abbrev pub same_value : Option Text → Option Text → Bool
same_value none none = true
same_value none (some _) = false
same_value (some _) none = false
same_value (some s) (some t) = text_eq s t

-- `s === null ? null : f(s)`
abbrev pub if_present :
    Option Text → (Text → Outcome StorageException Text) → Outcome StorageException (Option Text)
if_present none f = ok none
if_present (some s) f = and_then (f s) (λ v. ok (some v))

-- `resolveAddressUpdate`
unfoldable pub resolve_address_update : Option Text → Outcome StorageException (Option Text)
resolve_address_update none = ok none
resolve_address_update (some s) = if_truthy (some (trim s)) create_address

-- The props that the three methods have in common; the outer `none` is `undefined`.
pub record UpdateProps : Type 0 where
  pub name : Option Text
  pub description : Option (Option Text)
  pub icon : Option Text
  pub color : Option Text

-- `next = ...; this.apply(event)`
abbrev pub propose : {M : Type 0} → (M → M) → StorageEvent → Step M
propose change event d =
    (ok tt, record { next = change d.next; uncommitted = d.uncommitted ++ event ∷ [] })

-- `this._model = next; return ok(undefined)`, unless a constructor threw on the way.
abbrev pub finish :
    {M : Type 0} → Aggregate M → Outcome StorageException (Unit {0}) × Draft M → Transition M
finish a (ok _, d) = (ok tt, record { model = d.next; uncommitted = d.uncommitted })
finish a (err e, d) = (err e, record a { uncommitted = d.uncommitted })
finish a (throw e, d) = (throw e, record a { uncommitted = d.uncommitted })

module _ {M : Type 0} ⦃k : StorageModel M⦄ where
  unfoldable pub update_name : ℕ → Text → Aggregate M → Option Text → Step M
  update_name now actor a none = pure tt
  update_name now actor a (some v) =
      if text_eq v (common_of a).name
      then pure tt
      else (lift (create_name v) >>= λ name.
          propose (k.with_changes now (record no_changes { name = some name }))
            (name_changed (subject actor a) (common_of a).name v))

  -- The inner block: nothing happens if the value is the one that is there.
  abbrev pub propose_description : ℕ → Text → Aggregate M → Option Text → Step M
  propose_description now actor a description =
      propose (k.with_changes now (record no_changes { description = some description }))
        (description_changed (subject actor a) (common_of a).description description)

  unfoldable pub update_description : ℕ → Text → Aggregate M → Option (Option Text) → Step M
  update_description now actor a none = pure tt
  update_description now actor a (some v) =
      lift (if_present v create_description) >>= λ description.
      if same_value (common_of a).description description
      then pure tt
      else propose_description now actor a description

  unfoldable pub update_icon : ℕ → Text → Aggregate M → Option Text → Step M
  update_icon now actor a none = pure tt
  update_icon now actor a (some v) =
      if text_eq v (common_of a).icon
      then pure tt
      else (lift (create_icon v) >>= λ icon.
          propose (k.with_changes now (record no_changes { icon = some icon }))
            (icon_changed (subject actor a) (common_of a).icon v))

  unfoldable pub update_color : ℕ → Text → Aggregate M → Option Text → Step M
  update_color now actor a none = pure tt
  update_color now actor a (some v) =
      if text_eq v (common_of a).color
      then pure tt
      else (lift (create_color v) >>= λ color.
          propose (k.with_changes now (record no_changes { color = some color }))
            (color_changed (subject actor a) (common_of a).color v))

  -- The blocks for the common fields, in their order.
  unfoldable pub update_common : ℕ → Text → Aggregate M → UpdateProps → Step M
  unfolding update_name update_description update_icon update_color
  update_common now actor a props = do
    update_name now actor a props.name
    update_description now actor a props.description
    update_icon now actor a props.icon
    update_color now actor a props.color
