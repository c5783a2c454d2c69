-- ===== src/Storage/Handlers/Parts.antt =====
-- What the shared shapes of the handlers leave of a server when they do not succeed.
use stocka_server.Prelude.{ℕ, refl, ap, Option, inl, inr, Text}
use stocka_server.Shared.Outcome.{Outcome, Act, refuse_if, refuse_on, lift}
use stocka_server.Shared.Rules.{
  Leaves, Leaves-on, AllOrNothing, AllOrNothing-after, AllOrNothing-then,
}
use stocka_server.Storage.Exceptions.{StorageException}
use stocka_server.Storage.Model.{StorageType, is_archived, is_frozen}
use stocka_server.Storage.Lifecycle.{StorageModel, Aggregate, Transition, common_of}
use stocka_server.Storage.Services.{
  Repository, Services, Handler, read, write, find_own, storage_id, check_name, execute,
  after_method,
}
use stocka_server.Storage.Services.Leaves.{
  read-Leaves, find_own-Leaves, storage_id-Leaves, check_name-Leaves, after_method-Leaves,
  write-Leaves, execute-AllOrNothing,
}
use stocka_server.Storage.Policy.{Guard}
use stocka_server.Storage.View.{ItemView}
use stocka_server.Storage.Handlers.Transitions.{
  StorageCommand, store_transition, transition_handler, restore_handler, delete_handler,
}
use stocka_server.Storage.Handlers.Editing.{store_update}
use stocka_server.Storage.Handlers.TypeChange.{Metadata, swap_rows, convert}

lift-Leaves : {S E A V : Type 0} (v : S → V) (r : Outcome E A) → Leaves v (lift r)
lift-Leaves v r s = refl

-- A transaction on the rows, as a part of a handler.
write-AllOrNothing :
    {W A : Type 0} (m : Act W StorageException A)
    → AllOrNothing (λ w. w) m
    → AllOrNothing (λ s. s) (write m)
write-AllOrNothing m h s = elim (h s.db) [
  | inl done ↦ inl done
  | inr same ↦ inr (ap (λ w. record s { db = w }) same)
]

module _ {W : Type 0} (sv : Services W) where
  abbrev pub Silent : {A : Type 0} → Handler W A → Type 0
  Silent m = AllOrNothing (λ s. s.published) m

  module _ {M : Type 0} (repo : Repository W M) (view : Aggregate M → ItemView) where
    store_transition-Silent :
        (c : StorageCommand) (t : Transition M) → Silent (store_transition sv repo view c t)
    unfolding store_transition
    store_transition-Silent c t =
        AllOrNothing-after _ (after_method t) _ (after_method-Leaves _ t) λ changed.
          AllOrNothing-after _ (storage_id sv c.storage_uuid c.tenant_uuid) _
            (storage_id-Leaves _ sv c.storage_uuid c.tenant_uuid)
            λ id.
              AllOrNothing-after _ (write (repo.save changed id)) _
                (write-Leaves (repo.save changed id)) λ saved s. inl refl

    pub store_update-Silent :
        (c : StorageCommand) (t : Transition M) → Silent (store_update sv repo view c t)
    unfolding store_update
    store_update-Silent c t =
        AllOrNothing-after _ (storage_id sv c.storage_uuid c.tenant_uuid) _
          (storage_id-Leaves _ sv c.storage_uuid c.tenant_uuid)
          λ id. AllOrNothing-after _ (after_method t) _ (after_method-Leaves _ t) λ changed.
            AllOrNothing-after _ (write (repo.save changed id)) _
              (write-Leaves (repo.save changed id)) λ saved s. inl refl

    module _ ⦃k : StorageModel M⦄ (method : Text → Aggregate M → Transition M)
        (c : StorageCommand) where
      pub transition_handler-Silent : Silent (transition_handler sv repo view method c)
      unfolding transition_handler
      transition_handler-Silent =
          AllOrNothing-after _ (find_own repo c.storage_uuid c.tenant_uuid) _
            (find_own-Leaves _ repo c.storage_uuid c.tenant_uuid)
            λ found. store_transition-Silent c (method c.actor_uuid found)

      pub restore_handler-Silent :
          (guard : Text → Guard W) → Silent (restore_handler sv repo view guard method c)
      unfolding restore_handler
      restore_handler-Silent guard =
          AllOrNothing-after _ (find_own repo c.storage_uuid c.tenant_uuid) _
            (find_own-Leaves _ repo c.storage_uuid c.tenant_uuid)
            λ found.
              AllOrNothing-after _ (read (guard c.tenant_uuid)) _
                (read-Leaves _ (guard c.tenant_uuid))
                λ capacity_error.
                  AllOrNothing-after _ (refuse_on capacity_error) _ (Leaves-on _ capacity_error)
                    λ _. store_transition-Silent c (method c.actor_uuid found)

  pub delete_handler-Silent :
      {M : Type 0} ⦃k : StorageModel M⦄ (repo : Repository W M)
      (method : Text → Aggregate M → Transition M) (c : StorageCommand)
      → Silent (delete_handler sv repo method c)
  unfolding delete_handler
  delete_handler-Silent repo method c =
      AllOrNothing-after _ (find_own repo c.storage_uuid c.tenant_uuid) _
        (find_own-Leaves _ repo c.storage_uuid c.tenant_uuid)
        λ found.
          AllOrNothing-after _ (after_method (method c.actor_uuid found)) _
            (after_method-Leaves _ (method c.actor_uuid found))
            λ changed.
              AllOrNothing-after _ (write (repo.delete_by_uuid c.storage_uuid)) _
                (write-Leaves (repo.delete_by_uuid c.storage_uuid)) λ _ s. inl refl

  -- A change of type is all or nothing, rows and events: the rows change in one transaction, and
  -- nothing after it can fail.
  module _ {M N : Type 0} ⦃k : StorageModel M⦄ (source : Repository W M)
      (target : Repository W N) where
    swap_rows-AllOrNothing :
        (storage_uuid : Text) (made : Aggregate N) (id : ℕ)
        → AllOrNothing (λ s. s) (swap_rows sv source target storage_uuid made id)
    unfolding swap_rows
    swap_rows-AllOrNothing storage_uuid made id =
        write-AllOrNothing (execute sv _) (execute-AllOrNothing sv _)

    pub convert-AllOrNothing :
        (from to : StorageType) (c : StorageCommand) (metadata : Metadata)
        (address_error : Option StorageException) (capacity : Text → Guard W)
        (made : Outcome StorageException (Aggregate N)) (found : Aggregate M)
        → AllOrNothing
            (λ s. s)
            (convert sv source target from to c metadata address_error capacity made found)
    unfolding convert
    convert-AllOrNothing from to c metadata address_error capacity made found =
        AllOrNothing-after _ (refuse_if (is_archived (common_of found)) _) _ (λ _. refl)
          λ _.
            AllOrNothing-after _ (refuse_if (is_frozen (common_of found)) _) _ (λ _. refl)
              λ _. AllOrNothing-after _ (refuse_on address_error) _ (Leaves-on _ address_error) λ _.
                AllOrNothing-after _ (read (capacity c.tenant_uuid)) _
                  (read-Leaves _ (capacity c.tenant_uuid))
                  λ capacity_error.
                    AllOrNothing-after _ (refuse_on capacity_error) _ (Leaves-on _ capacity_error)
                      λ _.
                        AllOrNothing-after _
                          (check_name sv c.tenant_uuid metadata.name (common_of found).name) _
                          (check_name-Leaves _ sv c.tenant_uuid metadata.name
                            (common_of found).name)
                          λ _.
                            AllOrNothing-after _ (storage_id sv c.storage_uuid c.tenant_uuid) _
                              (storage_id-Leaves _ sv c.storage_uuid c.tenant_uuid)
                              λ id.
                                AllOrNothing-after _ (lift made) _ (lift-Leaves _ made) λ aggregate.
                                  AllOrNothing-then _
                                    (swap_rows sv source target c.storage_uuid aggregate id) _
                                    (swap_rows-AllOrNothing c.storage_uuid aggregate id) λ _ s. refl
