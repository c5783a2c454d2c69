-- ===== src/Storage/Handlers/Creation/Laws.antt =====
-- What the success of a create handler says.
use stocka_server.Prelude.{
  ℕ, ◌≡◌, refl, sym, ap, ◌∙◌, Bool, true, false, Option, none, some, ◌++◌, Text,
}
use stocka_server.Shared.Outcome.{Outcome, ok, Act, refuse_if, lift, ok-injective}
use stocka_server.Shared.Rules.{>>=-inv}
use stocka_server.Storage.Exceptions.{StorageException, name_already_exists}
use stocka_server.Storage.Lifecycle.{StorageModel, Aggregate, common_of}
use stocka_server.Storage.Services.{Query, Repository, Services, Server, read, write}
use stocka_server.Storage.Handlers.Creation.{CreateCommand, store_new, require_container}

module _ {W : Type 0} where
  -- Inversions of the parts of a handler that ended with a value.
  pub read_inv :
      {A : Type 0} (q : Query W A) {s s' : Server W} {a : A}
      → read q s ≡ (ok a, s')
      → (q s.db ≡ ok a) × (s' ≡ s)
  read_inv q h = (ap (λ t. t.0) h, sym (ap (λ t. t.1) h))

  write_inv :
      {A : Type 0} (m : Act W StorageException A) {s s' : Server W} {a : A}
      → write m s ≡ (ok a, s')
      → s'.published ≡ s.published
  write_inv m h = sym (ap (λ t. t.1.published) h)

  written :
      {A : Type 0} (m : Act W StorageException A) {s s' : Server W} {a : A}
      → write m s ≡ (ok a, s')
      → m s.db ≡ (ok a, s'.db)
  written m h = ap (λ t. (t.0, t.1.db)) h

  pub refuse_if_inv :
      (b : Bool) (e : StorageException) {s s' : Server W} {a : Unit {0}}
      → refuse_if b e s ≡ (ok a, s')
      → (b ≡ false) × (s' ≡ s)
  refuse_if_inv true e h = cc (ap (λ t. t.0) h)
  refuse_if_inv false e h = (refl, sym (ap (λ t. t.1) h))

  require_container_inv :
      (o : Option ℕ) {s s' : Server W} {id : ℕ} → require_container o s ≡ (ok id, s') → s' ≡ s
  require_container_inv none h = cc (ap (λ t. t.0) h)
  require_container_inv (some n) h = sym (ap (λ t. t.1) h)

  lift_inv :
      {A : Type 0} (r : Outcome StorageException A) {s s' : Server W} {a : A}
      → lift r s ≡ (ok a, s')
      → (r ≡ ok a) × (s' ≡ s)
  lift_inv r h = (ap (λ t. t.0) h, sym (ap (λ t. t.1) h))

module _ {W : Type 0} (sv : Services W) where
  -- What was checked and done when a new storage has been stored.
  pub record Stored {M : Type 0} ⦃k : StorageModel M⦄ (repo : Repository W M) (c : CreateCommand)
      (creation : Outcome StorageException (Aggregate M)) (s : Server W) (uuid : Text)
      (s' : Server W) : Type 0 where
    pub name_passed : sv.storages.exists_active_name c.tenant_uuid c.name s.db ≡ ok false
    pub made : Aggregate M
    pub created : creation ≡ ok made
    pub answer : uuid ≡ (common_of made).uuid
    pub container : ℕ
    pub before : W
    pub saved : Aggregate M
    pub stored : repo.save made container before ≡ (ok saved, s'.db)
    pub announced : s'.published ≡ s.published ++ made.uncommitted

  pub store_new_inv :
      {M : Type 0} ⦃k : StorageModel M⦄ (repo : Repository W M) (c : CreateCommand)
      (creation : Outcome StorageException (Aggregate M)) {s s' : Server W} {uuid : Text}
      → store_new sv repo c creation s ≡ (ok uuid, s')
      → Stored repo c creation s uuid s'
  unfolding store_new
  store_new_inv repo c creation h =
      let (taken, s1, e1, h1) =
        >>=-inv (read (sv.storages.exists_active_name c.tenant_uuid c.name)) _ h in
      let (_, s2, e2, h2) = >>=-inv (refuse_if taken (name_already_exists c.name)) _ h1 in
      let (container, s3, e3, h3) =
        >>=-inv (write (sv.storages.find_or_create c.tenant_uuid)) _ h2 in
      let (id, s4, e4, h4) = >>=-inv (require_container container) _ h3 in
      let (made, s5, e5, h5) = >>=-inv (lift creation) _ h4 in
      let (saved, s6, e6, h6) = >>=-inv (write (repo.save made id)) _ h5 in
      let (r1, q1) = read_inv (sv.storages.exists_active_name c.tenant_uuid c.name) e1 in
      let (r2, q2) = refuse_if_inv taken (name_already_exists c.name) e2 in
      let (r5, q5) = lift_inv creation e5 in
      record {
        name_passed = r1 ∙ ap ok r2;
        made = made;
        created = r5;
        answer = ok-injective (sym (ap (λ t. t.0) h6));
        container = id;
        before = s5.db;
        saved = saved;
        stored = written (repo.save made id) e6 ∙ ap (λ db. (ok saved, db)) (ap (λ t. t.1.db) h6);
        announced =
            sym (ap (λ t. t.1.published) h6)
            ∙ ap (λ log. log ++ made.uncommitted)
                (write_inv (repo.save made id) e6
                  ∙ ap (λ s. s.published) (q5 ∙ require_container_inv container e4)
                  ∙ write_inv (sv.storages.find_or_create c.tenant_uuid) e3
                  ∙ ap (λ s. s.published) (q2 ∙ q1));
      }
