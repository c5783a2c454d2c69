-- ===== src/Storage/Handlers/Maintains/Conversion.antt =====
-- An invariant of the database through a change of type, whose rows change in one transaction.
use stocka_server.Prelude.{ℕ, ◌≡◌, refl, Option, Text}
use stocka_server.Shared.Outcome.{
  Outcome, ok, err, throw, Act, ◌>>=◌, ◌>>◌, pure, refuse_if, refuse_on, lift,
}
use stocka_server.Shared.Rules.{Leaves-on, Preserves-bind}
use stocka_server.Storage.Exceptions.{StorageException}
use stocka_server.Storage.Model.{StorageType, is_archived, is_frozen}
use stocka_server.Storage.Lifecycle.{StorageModel, Aggregate, common_of}
use stocka_server.Storage.Services.{
  Repository, Services, read, storage_id, check_name, execute, end_commit, end_transaction, begun,
}
use stocka_server.Storage.Services.Leaves.{read-Leaves, storage_id-Leaves, check_name-Leaves}
use stocka_server.Storage.Policy.{Guard}
use stocka_server.Storage.Handlers.Transitions.{StorageCommand}
use stocka_server.Storage.Handlers.TypeChange.{Metadata, swap_rows, convert}
use stocka_server.Storage.Handlers.Maintains.{
  Holds, Maintains, Keeps, Anything, Maintains-then, Maintains-after, Maintains-write,
}

module _ {W : Type 0} (I : W → Type 0) (sv : Services W) (commit-Keeps : Keeps I sv.commit) where
  module _ {A : Type 0} (w : W) (i : I w) where
    end_commit-Keeps :
        (a : A) (t : Outcome StorageException (Unit {0}) × W) → I t.1 → I (end_commit a w t).1
    end_commit-Keeps a (ok _, w') i' = i'
    end_commit-Keeps a (err e, w') i' = i
    end_commit-Keeps a (throw e, w') i' = i

    end_transaction-Keeps :
        (t : Outcome StorageException A × W) → I t.1 → I (end_transaction sv w t).1
    end_transaction-Keeps (ok a, w') i' = end_commit-Keeps a (sv.commit w') (commit-Keeps w' i')
    end_transaction-Keeps (err e, w') i' = i
    end_transaction-Keeps (throw e, w') i' = i

    begun-Keeps :
        (fn : Act W StorageException A) (b : Outcome StorageException (Unit {0}))
        → Keeps I fn
        → I (begun sv fn w b).1
    begun-Keeps fn (ok _) h = end_transaction-Keeps (fn w) (h w i)
    begun-Keeps fn (err e) h = i
    begun-Keeps fn (throw e) h = i

  pub execute-Keeps :
      {A : Type 0} (fn : Act W StorageException A) → Keeps I fn → Keeps I (execute sv fn)
  unfolding execute
  execute-Keeps fn h w i = begun-Keeps w i fn (sv.begin w) h

  module _ {M N : Type 0} ⦃k : StorageModel M⦄ (P : M → Type 0) (Q : N → Type 0)
      (source : Repository W M) (target : Repository W N) (from_source : Holds I P source)
      (to_target : Holds I Q target) where
    rows-Keeps :
        (storage_uuid : Text) (made : Aggregate N) (id : ℕ)
        → Q made.model
        → Keeps I
            (source.delete_by_uuid storage_uuid >> (target.save made id >>= λ _saved. pure tt))
    rows-Keeps storage_uuid made id q =
        Preserves-bind I (source.delete_by_uuid storage_uuid) _ (from_source.deleted storage_uuid)
          λ _.
            Preserves-bind I (target.save made id) _ (λ w i. to_target.saved made id w i q)
              λ saved w i. i

    abbrev Made : Aggregate N → Type 0
    Made a = Q a.model

    lift-Maintains :
        (made : Outcome StorageException (Aggregate N))
        → ((a : Aggregate N) → made ≡ ok a → Q a.model)
        → Maintains I Made (lift made)
    lift-Maintains (ok a) h s i = (i, h a refl)
    lift-Maintains (err e) h s i = (i, tt)
    lift-Maintains (throw e) h s i = (i, tt)

    pub convert-Maintains :
        (from to : StorageType) (c : StorageCommand) (metadata : Metadata)
        (address_error : Option StorageException) (capacity : Text → Guard W)
        (made : Outcome StorageException (Aggregate N)) (found : Aggregate M)
        → ((a : Aggregate N) → made ≡ ok a → Q a.model)
        → Maintains I
            (Anything I)
            (convert sv source target from to c metadata address_error capacity made found)
    unfolding convert swap_rows
    convert-Maintains from to c metadata address_error capacity made found h =
        Maintains-after I (Anything I) (refuse_if (is_archived (common_of found)) _) _ (λ _. refl)
          λ _.
            Maintains-after I (Anything I) (refuse_if (is_frozen (common_of found)) _) _ (λ _. refl)
              λ _.
                Maintains-after I (Anything I) (refuse_on address_error) _
                  (Leaves-on _ address_error)
                  λ _.
                    Maintains-after I (Anything I) (read (capacity c.tenant_uuid)) _
                      (read-Leaves _ (capacity c.tenant_uuid))
                      λ capacity_error.
                        Maintains-after I (Anything I) (refuse_on capacity_error) _
                          (Leaves-on _ capacity_error)
                          λ _.
                            Maintains-after I (Anything I)
                              (check_name sv c.tenant_uuid metadata.name (common_of found).name) _
                              (check_name-Leaves _ sv c.tenant_uuid metadata.name
                                (common_of found).name)
                              λ _.
                                Maintains-after I (Anything I)
                                  (storage_id sv c.storage_uuid c.tenant_uuid) _
                                  (storage_id-Leaves _ sv c.storage_uuid c.tenant_uuid)
                                  λ id.
                                    Maintains-then I Made (Anything I) (lift made) _
                                      (lift-Maintains made h)
                                      λ aggregate q.
                                        Maintains-write I (Anything I) (execute sv _) _
                                          (execute-Keeps _
                                            (rows-Keeps c.storage_uuid aggregate id q))
                                          λ _ s i. (i, tt)
