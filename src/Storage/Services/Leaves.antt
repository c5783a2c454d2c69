-- ===== src/Storage/Services/Leaves.antt =====
-- What the parts of the handlers leave of a server, seen through any view of it.
use stocka_server.Prelude.{
  ℕ, ◌≡◌, refl, true, Option, none, some, inl, inr, ◌⊎◌, Text, text_eq, Bool-cases,
}
use stocka_server.Shared.Outcome.{Outcome, ok, err, throw, is_ok, Act, refuse_if}
use stocka_server.Shared.Rules.{Leaves, Leaves-bind, AllOrNothing}
use stocka_server.Storage.Exceptions.{StorageException, name_already_exists}
use stocka_server.Storage.Lifecycle.{StorageModel, Aggregate, Transition, common_of}
use stocka_server.Storage.Services.{
  Query, Repository, Services, Server, read, write, own, find_own, require_id, storage_id,
  check_name, after_method, execute, begun, end_commit, end_transaction,
}

module _ {W V : Type 0} (v : Server W → V) where
  pub read-Leaves : {A : Type 0} (q : Query W A) → Leaves v (read q)
  read-Leaves q s = refl

  own-Leaves :
      {M : Type 0} ⦃k : StorageModel M⦄ (storage tenant : Text) (o : Option (Aggregate M))
      → Leaves v (own storage tenant o)
  own-Leaves storage tenant none s = refl
  own-Leaves storage tenant (some a) s =
      elim (Bool-cases (text_eq (common_of a).tenant_uuid tenant)) [ inl e ↦ rw e | inr e ↦ rw e ]

  pub find_own-Leaves :
      {M : Type 0} ⦃k : StorageModel M⦄ (repo : Repository W M) (storage tenant : Text)
      → Leaves v (find_own repo storage tenant)
  unfolding find_own
  find_own-Leaves repo storage tenant =
      Leaves-bind v (read (repo.find_by_uuid storage)) (own storage tenant)
        (read-Leaves (repo.find_by_uuid storage)) (own-Leaves storage tenant)

  require_id-Leaves : (storage : Text) (o : Option ℕ) → Leaves v (require_id storage o)
  require_id-Leaves storage none s = refl
  require_id-Leaves storage (some id) s = refl

  pub storage_id-Leaves :
      (sv : Services W) (storage tenant : Text) → Leaves v (storage_id sv storage tenant)
  unfolding storage_id
  storage_id-Leaves sv storage tenant =
      Leaves-bind v (read (sv.storages.find_id_by_tenant_uuid tenant)) (require_id storage)
        (read-Leaves (sv.storages.find_id_by_tenant_uuid tenant)) (require_id-Leaves storage)

  pub check_name-Leaves :
      (sv : Services W) (tenant : Text) (name : Option Text) (old : Text)
      → Leaves v (check_name sv tenant name old)
  unfolding check_name
  check_name-Leaves sv tenant none old s = refl
  check_name-Leaves sv tenant (some name) old s = elim (Bool-cases (text_eq name old)) [
    | inl e ↦ rw e
    | inr e ↦ rw e (
        Leaves-bind v (read (sv.storages.exists_active_name tenant name))
          (λ name_exists. refuse_if name_exists (name_already_exists name))
          (read-Leaves (sv.storages.exists_active_name tenant name)) (λ b s. refl) s)
  ]

  pub after_method-Leaves : {M : Type 0} (t : Transition M) → Leaves v (after_method t)
  after_method-Leaves (ok _, a) s = refl
  after_method-Leaves (err e, a) s = refl
  after_method-Leaves (throw e, a) s = refl

-- A write to the database publishes nothing.
pub write-Leaves :
    {W A : Type 0} (m : Act W StorageException A)
    → Leaves {S = Server W} (λ s. s.published) (write m)
write-Leaves m s = refl

-- A transaction that does not succeed leaves every row as it was.
end_commit-AllOrNothing :
    {W A : Type 0} (a : A) (w : W) (t : Outcome StorageException (Unit {0}) × W)
    → (is_ok (end_commit a w t).0 ≡ true) ⊎ ((end_commit a w t).1 ≡ w)
end_commit-AllOrNothing a w (ok _, w') = inl refl
end_commit-AllOrNothing a w (err e, w') = inr refl
end_commit-AllOrNothing a w (throw e, w') = inr refl

end_transaction-AllOrNothing :
    {W A : Type 0} (sv : Services W) (w : W) (t : Outcome StorageException A × W)
    → (is_ok (end_transaction sv w t).0 ≡ true) ⊎ ((end_transaction sv w t).1 ≡ w)
end_transaction-AllOrNothing sv w (ok a, w') = end_commit-AllOrNothing a w (sv.commit w')
end_transaction-AllOrNothing sv w (err e, w') = inr refl
end_transaction-AllOrNothing sv w (throw e, w') = inr refl

-- `begin`'s answer, and the rest of `execute`.
begun-AllOrNothing :
    {W A : Type 0} (sv : Services W) (fn : Act W StorageException A) (w : W)
    (b : Outcome StorageException (Unit {0}))
    → (is_ok (begun sv fn w b).0 ≡ true) ⊎ ((begun sv fn w b).1 ≡ w)
begun-AllOrNothing sv fn w (ok _) = end_transaction-AllOrNothing sv w (fn w)
begun-AllOrNothing sv fn w (err e) = inr refl
begun-AllOrNothing sv fn w (throw e) = inr refl

pub execute-AllOrNothing :
    {W A : Type 0} (sv : Services W) (fn : Act W StorageException A)
    → AllOrNothing (λ w. w) (execute sv fn)
unfolding execute
execute-AllOrNothing sv fn w = begun-AllOrNothing sv fn w (sv.begin w)
