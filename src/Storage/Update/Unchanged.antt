-- ===== src/Storage/Update/Unchanged.antt =====
-- `update` with the values that a storage has already.
use stocka_server.Prelude.{IfSome, ℕ, ◌≡◌, refl, true, Option, none, some, Text, text_eq_refl}
use stocka_server.Shared.Outcome.{ok, >>-ok}
use stocka_server.Storage.Values.Laws.{IsDescription, create_description-IsFactory}
use stocka_server.Storage.Model.{Common}
use stocka_server.Storage.Lifecycle.{StorageModel, Aggregate, common_of}
use stocka_server.Storage.Update.{
  Draft, UpdateProps, same_value, update_name, update_description, update_icon, update_color,
  update_common,
}
use stocka_server.Storage.Valid.{IsValidCommon}

-- The props that repeat a storage's values.
abbrev pub current : Common → UpdateProps
current m = record {
  name = some m.name;
  description = some m.description;
  icon = some m.icon;
  color = some m.color;
}

pub same_value_refl : (s : Option Text) → same_value s s ≡ true
same_value_refl none = refl
same_value_refl (some s) = text_eq_refl s

module _ {M : Type 0} ⦃k : StorageModel M⦄ where
  description_unchanged :
      (now : ℕ) (actor : Text) (a : Aggregate M) (d : Draft M) (s : Option Text)
      → (common_of a).description ≡ s
      → IfSome IsDescription s
      → update_description now actor a (some s) d ≡ (ok tt, d)
  unfolding update_description
  description_unchanged now actor a d none e h = rw e
  description_unchanged now actor a d (some s) e h =
      rw (create_description-IsFactory.again s h) (rw e (rw (text_eq_refl s)))

  pub update_common_unchanged :
      (now : ℕ) (actor : Text) (a : Aggregate M) (d : Draft M)
      → IsValidCommon (common_of a)
      → update_common now actor a (current (common_of a)) d ≡ (ok tt, d)
  unfolding update_common update_name update_icon update_color
  update_common_unchanged now actor a d v =
      let m = common_of a in
      >>-ok (update_name now actor a (some m.name)) _ {s' = d} (rw (text_eq_refl m.name)) (
        >>-ok (update_description now actor a (some m.description)) _
          (description_unchanged now actor a d m.description refl v.description)
          (>>-ok (update_icon now actor a (some m.icon)) _ {s' = d} (rw (text_eq_refl m.icon))
            (rw (text_eq_refl m.color))))
