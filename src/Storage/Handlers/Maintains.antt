-- ===== src/Storage/Handlers/Maintains.antt =====
-- An invariant of the database through the shapes that the handlers of the storage context share.
pub mod Conversion
pub mod Kinds
use stocka_server.Prelude.{
  ℕ, ◌≡◌, refl, sym, subst, ◌⊎◌, inl, inr, Bool-cases, Option, none, some, Text, text_eq,
}
use stocka_server.Shared.Outcome.{
  Outcome, ok, err, throw, Act, resume, ◌>>=◌, refuse_if, refuse_on, lift,
}
use stocka_server.Shared.Rules.{Leaves, Leaves-on}
use stocka_server.Storage.Exceptions.{StorageException}
use stocka_server.Storage.Events.{StorageEvent}
use stocka_server.Storage.Model.{StorageType, is_archived, is_frozen}
use stocka_server.Storage.Lifecycle.{StorageModel, Aggregate, Transition, common_of}
use stocka_server.Storage.Services.{
  Query, Repository, Services, Server, Handler, read, write, publish, own, find_own, storage_id,
  check_name, after_method, execute, end_commit, end_transaction, begun,
}
use stocka_server.Storage.Services.Leaves.{read-Leaves, storage_id-Leaves, check_name-Leaves}
use stocka_server.Storage.Policy.{Guard}
use stocka_server.Storage.View.{ItemView}
use stocka_server.Storage.Handlers.Transitions.{
  StorageCommand, store_transition, transition_handler, restore_handler, delete_handler,
}
use stocka_server.Storage.Handlers.Editing.{store_update}
use stocka_server.Storage.Handlers.TypeChange.{Metadata, swap_rows, convert}

-- What an answer that is a value satisfies.
abbrev pub Returns : {A : Type 0} → (A → Type 0) → Outcome StorageException A → Type 0
Returns Q (ok a) = Q a
Returns Q (err _) = Unit
Returns Q (throw _) = Unit

module _ {W : Type 0} (I : W → Type 0) where
  -- A table of which `I` says that every row satisfies `P`.
  pub record Holds {M : Type 0} (P : M → Type 0) (repo : Repository W M) : Type 0 where
    pub found :
        (uuid : Text) (w : W) (a : Aggregate M)
        → I w
        → repo.find_by_uuid uuid w ≡ ok (some a)
        → P a.model
    pub saved : (a : Aggregate M) (id : ℕ) (w : W) → I w → P a.model → I (repo.save a id w).1
    pub deleted : (uuid : Text) (w : W) → I w → I (repo.delete_by_uuid uuid w).1

  -- A part of a handler that keeps `I`, and answers with values that satisfy `Q`.
  abbrev pub Maintains : {A : Type 0} → (A → Type 0) → Handler W A → Type 0
  Maintains Q m = (s : Server W) → I s.db → I (m s).1.db × Returns Q (m s).0

  -- The same of a part that is about the database only.
  abbrev pub Keeps : {A : Type 0} → Act W StorageException A → Type 0
  Keeps m = (w : W) → I w → I (m w).1

  abbrev pub Anything : {A : Type 0} → A → Type 0
  Anything _ = Unit

  Returns-Anything : {A : Type 0} (r : Outcome StorageException A) → Returns Anything r
  Returns-Anything (ok _) = tt
  Returns-Anything (err _) = tt
  Returns-Anything (throw _) = tt

  resume-Maintains :
      {A B : Type 0} (Q : A → Type 0) (R : B → Type 0) (f : A → Handler W B)
      (t : Outcome StorageException A × Server W)
      → I t.1.db × Returns Q t.0
      → ((a : A) → Q a → Maintains R (f a))
      → I (resume f t).1.db × Returns R (resume f t).0
  resume-Maintains Q R f (ok a, s) (i, q) k = k a q s i
  resume-Maintains Q R f (err e, s) (i, q) k = (i, tt)
  resume-Maintains Q R f (throw e, s) (i, q) k = (i, tt)

  pub Maintains-then :
      {A B : Type 0} (Q : A → Type 0) (R : B → Type 0) (m : Handler W A) (f : A → Handler W B)
      → Maintains Q m
      → ((a : A) → Q a → Maintains R (f a))
      → Maintains R (m >>= f)
  Maintains-then Q R m f h k s i = resume-Maintains Q R f (m s) (h s i) k

  -- A part that leaves the server alone, first.
  pub Maintains-after :
      {A B : Type 0} (R : B → Type 0) (m : Handler W A) (f : A → Handler W B)
      → Leaves (λ s. s) m
      → ((a : A) → Maintains R (f a))
      → Maintains R (m >>= f)
  Maintains-after R m f h k =
      Maintains-then Anything R m f
        (λ s i. (subst (λ s. I s.db) (sym (h s)) i, Returns-Anything (m s).0)) λ a _. k a

  -- A write, first.
  pub Maintains-write :
      {A B : Type 0} (R : B → Type 0) (m : Act W StorageException A) (f : A → Handler W B)
      → Keeps m
      → ((a : A) → Maintains R (f a))
      → Maintains R (write m >>= f)
  Maintains-write R m f h k =
      Maintains-then Anything R (write m) f (λ s i. (h s.db i, Returns-Anything (m s.db).0))
        λ a _. k a

  module _ {M : Type 0} (P : M → Type 0) where
    own-Returns :
        ⦃k : StorageModel M⦄ (storage tenant : Text) (a : Aggregate M) (s : Server W)
        → I s.db
        → P a.model
        → I (own storage tenant (some a) s).1.db
          × Returns (λ a. P a.model) (own storage tenant (some a) s).0
    own-Returns storage tenant a s i p =
        elim (Bool-cases (text_eq (common_of a).tenant_uuid tenant)) [
          | inl e ↦ rw e (i, p)
          | inr e ↦ rw e (i, tt)
        ]

    find_own-row :
        ⦃k : StorageModel M⦄ (repo : Repository W M) (storage tenant : Text) (s : Server W)
        (row : Outcome StorageException (Option (Aggregate M)))
        → Holds P repo
        → I s.db
        → repo.find_by_uuid storage s.db ≡ row
        → I (resume (own storage tenant) (row, s)).1.db
          × Returns (λ a. P a.model) (resume (own storage tenant) (row, s)).0
    find_own-row repo storage tenant s (ok none) h i e = (i, tt)
    find_own-row repo storage tenant s (ok (some a)) h i e =
        own-Returns storage tenant a s i (h.found storage s.db a i e)
    find_own-row repo storage tenant s (err _) h i e = (i, tt)
    find_own-row repo storage tenant s (throw _) h i e = (i, tt)

    pub find_own-Maintains :
        ⦃k : StorageModel M⦄ (repo : Repository W M) (storage tenant : Text)
        → Holds P repo
        → Maintains (λ a. P a.model) (find_own repo storage tenant)
    unfolding find_own
    find_own-Maintains repo storage tenant h s i =
        find_own-row repo storage tenant s (repo.find_by_uuid storage s.db) h i refl

    after_method-Maintains :
        (t : Transition M) → P t.1.model → Maintains (λ a. P a.model) (after_method t)
    after_method-Maintains (ok _, a) p s i = (i, p)
    after_method-Maintains (err e, a) p s i = (i, tt)
    after_method-Maintains (throw e, a) p s i = (i, tt)

  module _ (sv : Services W) {M : Type 0} (P : M → Type 0) (repo : Repository W M)
      (holds : Holds P repo) where
    abbrev Row : Aggregate M → Type 0
    Row a = P a.model

    -- The two ends of the handlers that save what a method has made of an aggregate.
    store_transition-Maintains :
        (view : Aggregate M → ItemView) (c : StorageCommand) (t : Transition M)
        → P t.1.model
        → Maintains Anything (store_transition sv repo view c t)
    unfolding store_transition
    store_transition-Maintains view c t p =
        Maintains-then Row Anything (after_method t) _ (after_method-Maintains P t p) λ changed q.
          Maintains-after Anything (storage_id sv c.storage_uuid c.tenant_uuid) _
            (storage_id-Leaves _ sv c.storage_uuid c.tenant_uuid)
            λ id.
              Maintains-write Anything (repo.save changed id) _
                (λ w i. holds.saved changed id w i q) λ saved s i. (i, tt)

    pub store_update-Maintains :
        (view : Aggregate M → ItemView) (c : StorageCommand) (t : Transition M)
        → P t.1.model
        → Maintains Anything (store_update sv repo view c t)
    unfolding store_update
    store_update-Maintains view c t p =
        Maintains-after Anything (storage_id sv c.storage_uuid c.tenant_uuid) _
          (storage_id-Leaves _ sv c.storage_uuid c.tenant_uuid)
          λ id.
            Maintains-then Row Anything (after_method t) _ (after_method-Maintains P t p)
              λ changed q.
                Maintains-write Anything (repo.save changed id) _
                  (λ w i. holds.saved changed id w i q) λ saved s i. (i, tt)

    module _ ⦃k : StorageModel M⦄ (method : Text → Aggregate M → Transition M)
        (keeps : (actor : Text) (a : Aggregate M) → P a.model → P (method actor a).1.model)
        (c : StorageCommand) where
      pub transition_handler-Maintains :
          (view : Aggregate M → ItemView)
          → Maintains Anything (transition_handler sv repo view method c)
      unfolding transition_handler
      transition_handler-Maintains view =
          Maintains-then Row Anything (find_own repo c.storage_uuid c.tenant_uuid) _
            (find_own-Maintains P repo c.storage_uuid c.tenant_uuid holds)
            λ found p.
              store_transition-Maintains view c (method c.actor_uuid found)
                (keeps c.actor_uuid found p)

      pub restore_handler-Maintains :
          (view : Aggregate M → ItemView) (guard : Text → Guard W)
          → Maintains Anything (restore_handler sv repo view guard method c)
      unfolding restore_handler
      restore_handler-Maintains view guard =
          Maintains-then Row Anything (find_own repo c.storage_uuid c.tenant_uuid) _
            (find_own-Maintains P repo c.storage_uuid c.tenant_uuid holds)
            λ found p.
              Maintains-after Anything (read (guard c.tenant_uuid)) _
                (read-Leaves _ (guard c.tenant_uuid))
                λ capacity_error.
                  Maintains-after Anything (refuse_on capacity_error) _ (Leaves-on _ capacity_error)
                    λ _.
                      store_transition-Maintains view c (method c.actor_uuid found)
                        (keeps c.actor_uuid found p)

      pub delete_handler-Maintains : Maintains Anything (delete_handler sv repo method c)
      unfolding delete_handler
      delete_handler-Maintains =
          Maintains-then Row Anything (find_own repo c.storage_uuid c.tenant_uuid) _
            (find_own-Maintains P repo c.storage_uuid c.tenant_uuid holds)
            λ found p.
              Maintains-then Row Anything (after_method (method c.actor_uuid found)) _
                (after_method-Maintains P (method c.actor_uuid found) (keeps c.actor_uuid found p))
                λ changed q.
                  Maintains-write Anything (repo.delete_by_uuid c.storage_uuid) _
                    (holds.deleted c.storage_uuid) λ _ s i. (i, tt)
