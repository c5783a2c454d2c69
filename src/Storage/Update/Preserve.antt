-- ===== src/Storage/Update/Preserve.antt =====
-- What every block of `update` keeps: a rule for chains of blocks, and its use on each of them.
use stocka_server.Prelude.{
  IfSome, ℕ, ◌≡◌, refl, Bool, true, false, Option, none, some, arith, if◌then◌else◌, Text, text_eq,
}
use stocka_server.Shared.Outcome.{Outcome, ok, err, throw, ◌>>=◌, ◌>>◌, lift, pure}
use stocka_server.Storage.Exceptions.{StorageException}
use stocka_server.Storage.Values.{create_name, create_description, create_icon, create_color}
use stocka_server.Storage.Values.Laws.{
  IsName, IsDescription, IsIcon, IsColor, create_name-IsFactory, create_description-IsFactory,
  create_icon-IsFactory, create_color-IsFactory,
}
use stocka_server.Storage.Model.{Changes, no_changes}
use stocka_server.Storage.Lifecycle.{StorageModel, Aggregate, common_of}
use stocka_server.Storage.Update.{
  Draft, Step, UpdateProps, same_value, if_present, propose_description, update_name,
  update_description, update_icon, update_color, update_common,
}

-- A change of the common fields that leaves the dates alone and gives valid values only.
pub record IsEdit (c : Changes) : Type 0 where
  pub name : IfSome IsName c.name
  pub description : IfSome (IfSome IsDescription) c.description
  pub icon : IfSome IsIcon c.icon
  pub color : IfSome IsColor c.color
  pub frozen_at : c.frozen_at ≡ none
  pub archived_at : c.archived_at ≡ none

module _ {M : Type 0} (P : M → Type 0) where
  abbrev pub Keeps : Step M → Type 0
  Keeps m = (d : Draft M) → P d.next → P (m d).1.next

  pub Keeps-then : (m n : Step M) → Keeps m → Keeps n → Keeps (m >> n)
  Keeps-then m n hm hn d p = go (m d) (hm d p)
    where
      go :
          (r : Outcome StorageException (Unit {0}) × Draft M)
          → P r.1.next
          → P (((λ _. r) >> n) d).1.next
      go (ok _, d') p' = hn d' p'
      go (err _, d') p' = p'
      go (throw _, d') p' = p'

  pub Keeps-lift :
      {A : Type 0} (r : Outcome StorageException A) (f : A → Step M)
      → ((a : A) → r ≡ ok a → Keeps (f a))
      → Keeps (lift r >>= f)
  Keeps-lift (ok a) f h d p = h a refl d p
  Keeps-lift (err e) f h d p = p
  Keeps-lift (throw e) f h d p = p

  pub Keeps-if : (b : Bool) (m : Step M) → Keeps m → Keeps (if b then pure tt else m)
  Keeps-if true m h d p = p
  Keeps-if false m h d p = h d p

-- The sound halves of the factories, at the values that a block stores.
if_present_sound :
    (s : Option Text) (v : Option Text)
    → if_present s create_description ≡ ok v
    → IfSome IsDescription v
if_present_sound none none h = tt
if_present_sound none (some v) h = cc
if_present_sound (some s) none h = tt
if_present_sound (some s) (some v) h = ground (arith, create_description-IsFactory.sound s v)

IsEdit-name : (s : Text) → IsName s → IsEdit (record no_changes { name = some s })
IsEdit-name s h = record {
  name = h;
  description = tt;
  icon = tt;
  color = tt;
  frozen_at = refl;
  archived_at = refl;
}

IsEdit-icon : (s : Text) → IsIcon s → IsEdit (record no_changes { icon = some s })
IsEdit-icon s h = record {
  name = tt;
  description = tt;
  icon = h;
  color = tt;
  frozen_at = refl;
  archived_at = refl;
}

IsEdit-color : (s : Text) → IsColor s → IsEdit (record no_changes { color = some s })
IsEdit-color s h = record {
  name = tt;
  description = tt;
  icon = tt;
  color = h;
  frozen_at = refl;
  archived_at = refl;
}

IsEdit-description :
    (s : Option Text) → IfSome IsDescription s → IsEdit (record no_changes { description = some s })
IsEdit-description s h = record {
  name = tt;
  description = h;
  icon = tt;
  color = tt;
  frozen_at = refl;
  archived_at = refl;
}

module _ {M : Type 0} ⦃k : StorageModel M⦄ (P : M → Type 0)
    (closed : (now : ℕ) (c : Changes) (m : M) → IsEdit c → P m → P (k.with_changes now c m)) where
  update_name-Keeps :
      (now : ℕ) (actor : Text) (a : Aggregate M) (v : Option Text)
      → Keeps P (update_name now actor a v)
  unfolding update_name
  update_name-Keeps now actor a none d p = p
  update_name-Keeps now actor a (some v) d p =
      Keeps-if P (text_eq v (common_of a).name) _
        (Keeps-lift P (create_name v) _
          (λ s e d p. closed now _ d.next (IsEdit-name s (create_name-IsFactory.sound v s e).0) p))
        d p

  update_description-Keeps :
      (now : ℕ) (actor : Text) (a : Aggregate M) (v : Option (Option Text))
      → Keeps P (update_description now actor a v)
  unfolding update_description
  update_description-Keeps now actor a none d p = p
  update_description-Keeps now actor a (some v) d p =
      Keeps-lift P (if_present v create_description)
        (λ s.
          if same_value (common_of a).description s
          then pure tt
          else propose_description now actor a s)
        (λ s e.
          Keeps-if P (same_value (common_of a).description s) (propose_description now actor a s)
            (λ d p. closed now _ d.next (IsEdit-description s (if_present_sound v s e)) p))
        d p

  update_icon-Keeps :
      (now : ℕ) (actor : Text) (a : Aggregate M) (v : Option Text)
      → Keeps P (update_icon now actor a v)
  unfolding update_icon
  update_icon-Keeps now actor a none d p = p
  update_icon-Keeps now actor a (some v) d p =
      Keeps-if P (text_eq v (common_of a).icon) _
        (Keeps-lift P (create_icon v) _
          (λ s e d p. closed now _ d.next (IsEdit-icon s (create_icon-IsFactory.sound v s e).0) p))
        d p

  update_color-Keeps :
      (now : ℕ) (actor : Text) (a : Aggregate M) (v : Option Text)
      → Keeps P (update_color now actor a v)
  unfolding update_color
  update_color-Keeps now actor a none d p = p
  update_color-Keeps now actor a (some v) d p =
      Keeps-if P (text_eq v (common_of a).color) _
        (Keeps-lift P (create_color v) _ (λ s e d p.
          closed now _ d.next (IsEdit-color s (create_color-IsFactory.sound v s e).0) p))
        d p

  -- The blocks for the common fields keep whatever a change of those fields keeps.
  pub update_common-Keeps :
      (now : ℕ) (actor : Text) (a : Aggregate M) (props : UpdateProps)
      → Keeps P (update_common now actor a props)
  unfolding update_common
  update_common-Keeps now actor a props =
      let name = update_name now actor a props.name in
      let description = update_description now actor a props.description in
      let icon = update_icon now actor a props.icon in
      let color = update_color now actor a props.color in
      Keeps-then P name (description >> (icon >> color)) (update_name-Keeps now actor a props.name)
        (Keeps-then P description (icon >> color)
          (update_description-Keeps now actor a props.description)
          (Keeps-then P icon color (update_icon-Keeps now actor a props.icon)
            (update_color-Keeps now actor a props.color)))
