-- ===== src/Users/Tests.antt =====
-- Accounts on concrete values, and the theorems about them applied to these.
use stocka_server.Prelude.{
  ◌≡◌, refl, ◌↔◌, Bool, true, false, none, some, [], ◌∷◌, Text, codes, trim, trim_start, trim_end,
  is_space, text_eq,
}
use stocka_server.Shared.Outcome.{ok, throw}
use stocka_server.Users.Email.{is_email, all_plain, is_plain, has_dot, create_email}
use stocka_server.Users.Email.Pattern.{Address, is_email-Address}
use stocka_server.Users.Credential.{
  empty_password_hash, Credential, pending_verification, active, create_credential, create_provider,
  create_status, create_optional_hash, verify_email, update_password_hash, call_verify_email,
  call_update_password_hash, call, call_all, to_domain, to_entity, Props, status_text,
}
use stocka_server.Users.Credential.Valid.{
  IsLowerCase, IsValid, IsSound, create_credential-IsSound, call_all-IsSound,
}
use stocka_server.Users.Credential.RoundTrip.{IsRowOf, to_domain-to_entity}

-- Every text is taken for one in lower case, and every uuid for a valid one.
abbrev same : Text → Text
same s = s

abbrev any : Text → Bool
any _ = true

same-IsLowerCase : IsLowerCase same
same-IsLowerCase = record { lower_idem = λ s. refl; trim-lower = λ s. refl }

no_dot : is_email (codes "a@b") ≡ false
unfolding is_email all_plain is_plain has_dot is_space
no_dot = refl

dot_last : is_email (codes "a@b.") ≡ false
unfolding is_email all_plain is_plain has_dot is_space
dot_last = refl

is_email-Address_example : (is_email (codes "a@b.c") ≡ true) ↔ Address (codes "a@b.c")
is_email-Address_example = is_email-Address (codes "a@b.c")

abbrev fresh : Credential
fresh = record {
  id = none;
  uuid = codes "u";
  account_id = 1;
  email = codes "a@b.c";
  password_hash = some (codes "h");
  status = pending_verification;
  email_verified_at = none;
  verification_blocked_until = none;
  created_with = codes "email";
  created_at = 3;
  updated_at = 3;
  archived_at = none;
}

created :
    create_credential any same 3 (codes "u") 1 (codes " a@b.c ") (some (codes "h")) (codes "email")
    ≡ ok fresh
unfolding create_credential create_email create_provider create_status create_optional_hash is_email
    all_plain is_plain has_dot is_space trim trim_start trim_end text_eq
created = refl

fresh-IsSound : IsSound any same same-IsLowerCase fresh
fresh-IsSound =
    create_credential-IsSound any same same-IsLowerCase 3 (codes "u") 1 (codes " a@b.c ")
      (some (codes "h")) (codes "email") fresh created

abbrev verified : Credential
verified = record fresh {
  status = active;
  email_verified_at = some 5;
  password_hash = some (codes "g");
  updated_at = 6;
}

calls :
    call_all (call_verify_email 5 ∷ call_update_password_hash 6 (codes "g") ∷ []) fresh
    ≡ ok verified
unfolding call_all call verify_email update_password_hash trim trim_start trim_end is_space
calls = refl

call_all-IsSound_example : IsSound any same same-IsLowerCase verified
call_all-IsSound_example =
    call_all-IsSound any same same-IsLowerCase
      (call_verify_email 5 ∷ call_update_password_hash 6 (codes "g") ∷ []) fresh verified
      fresh-IsSound calls

blank_hash : update_password_hash 6 (codes " ") fresh ≡ throw empty_password_hash
unfolding update_password_hash trim trim_start trim_end is_space
blank_hash = refl

-- The row of an account that was stored before, under the id 8.
abbrev stored : Credential
stored = record fresh { id = some 8 }

abbrev row : Props
row = record {
  id = some 8;
  uuid = fresh.uuid;
  account_id = fresh.account_id;
  email = fresh.email;
  password_hash = fresh.password_hash;
  status = status_text fresh.status;
  email_verified_at = fresh.email_verified_at;
  verification_blocked_until = fresh.verification_blocked_until;
  created_with = fresh.created_with;
  created_at = 3;
  updated_at = 4;
  archived_at = fresh.archived_at;
}

row-IsRowOf : IsRowOf (to_entity any same stored) row
unfolding to_entity
row-IsRowOf = record {
  new_id = 9;
  id = refl;
  uuid = refl;
  account_id = refl;
  email = refl;
  password_hash = refl;
  status = refl;
  email_verified_at = refl;
  verification_blocked_until = refl;
  created_with = refl;
  archived_at = refl;
}

stored-IsValid : IsValid any same stored
stored-IsValid =
    let v = fresh-IsSound.valid in
    record {
      uuid_taken = v.uuid_taken;
      email_taken = v.email_taken;
      email_lower = v.email_lower;
      hash_taken = v.hash_taken;
      provider_taken = v.provider_taken;
    }

to_domain-to_entity_example :
    to_domain any same row ≡ ok (record stored { created_at = 3; updated_at = 4 })
to_domain-to_entity_example = to_domain-to_entity any same stored row stored-IsValid row-IsRowOf
