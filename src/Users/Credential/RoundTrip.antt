-- ===== src/Users/Credential/RoundTrip.antt =====
-- What the mapper of credential accounts stores and restores.
use stocka_server.Prelude.{ℕ, ◌≡◌, Bool, some, or_else, Text}
use stocka_server.Shared.Outcome.{ok}
use stocka_server.Users.Credential.{Credential, Entity, Props, to_domain, to_entity}
use stocka_server.Users.Credential.Valid.{IsValid, status_taken}

-- The row of the table once an entity was saved: its columns are those of the entity; its id is the
-- entity's, or a new one if the entity has none; the dates are the database's.
pub record IsRowOf (entity : Entity) (row : Props) : Type 0 where
  pub new_id : ℕ
  pub id : row.id ≡ some (or_else entity.id new_id)
  pub uuid : row.uuid ≡ entity.uuid
  pub account_id : row.account_id ≡ entity.account_id
  pub email : row.email ≡ entity.email
  pub password_hash : row.password_hash ≡ entity.password_hash
  pub status : row.status ≡ entity.status
  pub email_verified_at : row.email_verified_at ≡ entity.email_verified_at
  pub verification_blocked_until :
      row.verification_blocked_until ≡ entity.verification_blocked_until
  pub created_with : row.created_with ≡ entity.created_with
  pub archived_at : row.archived_at ≡ entity.archived_at

-- A sound credential account that is stored, and restored from its row, is as it was, with the two
-- dates of the database: it keeps its id if it has one, and else has the new id of its row.
pub to_domain-to_entity :
    (validate : Text → Bool) (to_lower : Text → Text) (c : Credential) (row : Props)
    → IsValid validate to_lower c
    → (r : IsRowOf (to_entity validate to_lower c) row)
    → to_domain validate to_lower row
      ≡ ok (record c {
        id = some (or_else c.id r.new_id);
        created_at = row.created_at;
        updated_at = row.updated_at;
      })
unfolding to_domain to_entity
to_domain-to_entity validate to_lower c row v r =
    rw (r.id, r.uuid, r.account_id, r.email, r.password_hash, r.status, r.email_verified_at)
      (rw (r.verification_blocked_until, r.created_with, r.archived_at)
        (rw v.uuid_taken (
          rw v.email_lower (
            rw v.email_taken
              (rw v.hash_taken (rw (status_taken c.status) (rw v.provider_taken)))))))
