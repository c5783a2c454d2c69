-- ===== src/Tenants/Tests.antt =====
-- Accepting an invitation on a database in memory.
use stocka_server.Prelude.{
  ℕ, ◌≡◌, refl, ap, subst, inl, inr, Bool-cases, true, none, some, List, [], ◌∷◌, if◌then◌else◌,
  codes, text_eq,
}
use stocka_server.Shared.Outcome.{ok, err, throw}
use stocka_server.Tenants.Invitation.{
  invitation_already_used, database_error, Invitation, Member, create_member, create_role, includes,
}
use stocka_server.Tenants.Handlers.{
  TenantServices, in_transaction, check_acceptance, accept_invitation,
}
use stocka_server.Tenants.Handlers.Once.{Remembers, accept_invitation_once}

record Rows : Type 0 where
  invitation : Invitation
  members : List Member

record Db : Type 0 where
  rows : Rows
  saved : Rows

abbrev used_at : ℕ → Invitation → Invitation
used_at now i = record i { accepted_at = some now }

abbrev accepted_rows : ℕ → Rows → Rows
accepted_rows now r = record r { invitation = used_at now r.invitation }

abbrev services : TenantServices Db
services = record {
  find_by_token = λ token w.
      ok (if text_eq w.rows.invitation.token token then some w.rows.invitation else none);
  find_by_id = λ id w. ok none;
  find_pending_by_email = λ now tenant_id email w. ok none;
  create_invitation = λ i w. (ok i, w);
  mark_accepted = λ now id w.
      (ok tt, record { rows = accepted_rows now w.rows; saved = accepted_rows now w.saved });
  cancel = λ id w. (ok tt, w);
  find_active_by_user_uuid = λ uuid w. ok none;
  persist_member =
      λ m w. (ok tt, record w { rows = record w.rows { members = m ∷ w.rows.members } });
  get_assignable_roles = λ role w. ok [];
  find_user = λ uuid w. ok (some (record { id = 7; uuid = uuid; archived_at = none }));
  begin = λ w. (ok tt, record w { saved = w.rows });
  commit = λ w. (ok tt, w);
  rollback = λ w. (ok tt, record w { rows = w.saved });
  to_lower = λ s. s;
  is_uuid = λ s. true;
}

abbrev rows : Rows
rows = record {
  invitation = record {
    id = codes "i";
    tenant_id = 3;
    tenant_uuid = codes "t";
    tenant_name = codes "Shop";
    invited_by = 1;
    email = codes "a@b.c";
    role = codes "BUYER";
    token = codes "tok";
    accepted_at = none;
    expires_at = 100;
    created_at = 1;
  };
  members = [];
}

abbrev db : Db
db = record { rows = rows; saved = rows }

-- The invitation of the example is accepted.
accepted :
    (accept_invitation services 50 (codes "tok") (codes "a@b.c") (codes "u") db).0
    ≡ ok rows.invitation
unfolding accept_invitation check_acceptance in_transaction create_member create_role includes
    text_eq
accepted = refl

services-Remembers : Remembers services 50
unfolding text_eq
services-Remembers = record {
  marks = λ token i w w' f m. elim (Bool-cases (text_eq w.rows.invitation.token token)) [
    | inl t ↦
        let same : w.rows.invitation ≡ i = cc (rw t at f) in
        let after : record { rows = accepted_rows 50 w.rows; saved = accepted_rows 50 w.saved }
            ≡ w' =
          cc m in
        subst (λ w'. services.find_by_token token w' ≡ ok (some (used_at 50 i))) after
          (rw t (ap (λ i. ok (some (used_at 50 i))) same))
    | inr t ↦ cc (rw t at f)
  ];
  apart_begin = λ token w. refl;
  apart_commit = λ token w. refl;
  apart_persist = λ token m w. refl;
}

accept_invitation_once_example :
    let w = (accept_invitation services 50 (codes "tok") (codes "a@b.c") (codes "u") db).1 in
    accept_invitation services 60 (codes "tok") (codes "d@b.c") (codes "v") w
    ≡ (err invitation_already_used, w)
accept_invitation_once_example =
    accept_invitation_once services 50 services-Remembers (codes "tok") (codes "a@b.c") (codes "u")
      rows.invitation 60 (codes "d@b.c") (codes "v") db accepted

-- The same where the commit fails: the invitation is lost and nobody has joined.
abbrev failing : TenantServices Db
failing = record services { commit = λ w. (throw (database_error 1), w) }

stranded :
    let w = (accept_invitation failing 50 (codes "tok") (codes "a@b.c") (codes "u") db).1 in
    (w.rows ≡ accepted_rows 50 rows)
    × ((accept_invitation services 60 (codes "tok") (codes "a@b.c") (codes "u") w).0
        ≡ err invitation_already_used)
unfolding accept_invitation check_acceptance in_transaction create_member create_role includes
    text_eq
stranded = (refl, refl)
