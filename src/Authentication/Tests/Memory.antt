-- ===== src/Authentication/Tests/Memory.antt =====
-- A database in memory for the authentication context: its rows, and the rows that a rollback would
-- bring back.
use stocka_server.Prelude.{
  ℕ, zero, suc, ◌≡◌, length, ◌+◌, ◌/◌, ◌<◌, ltb, sym, ap, ◌∙◌, true, arith, ◌++◌, refl, Bool, false,
  not, ◌==◌, Option, none, some, List, [], ◌∷◌, find, if◌then◌else◌, Text, codes, text_eq,
}
use stocka_server.Shared.Outcome.{Outcome, ok, throw}
use stocka_server.Authentication.Services.{AuthError, token_expired}
use stocka_server.Users.Credential.{Credential, pending_verification, active}
use stocka_server.Users.Facade.{User, Account, UserContracts}
use stocka_server.Authentication.VerificationToken.{Token}
use stocka_server.Authentication.Sessions.{Session, SessionContract}
use stocka_server.Authentication.Sagas.{Transaction, Isolates}
use stocka_server.Authentication.Verification.{TokenContract, VerificationServices}
use stocka_server.Authentication.Tokens.{Payload, Decoded, Jwt, Facades}
use stocka_server.Authentication.Refresh.{RefreshServices}
use stocka_server.Authentication.SignIn.{SignInServices}
use stocka_server.Authentication.PasswordReset.{ResetToken, ResetTokenContract, ResetServices}

pub record Rows : Type 0 where
  pub user : User
  pub account : Account
  pub credential : Credential
  pub tokens : List Token
  pub reset_tokens : List ResetToken
  pub sessions : Text → Option Session  -- by the hash of the token, which is unique

pub record Db : Type 0 where
  pub rows : Rows
  pub saved : Rows

abbrev has_id : ℕ → Option ℕ → Bool
has_id id none = false
has_id id (some i) = i == id

abbrev when : {A : Type 0} → Bool → A → Option A
when b a = if b then some a else none

abbrev pub users : UserContracts Db
users = record {
  find_user_by_uuid = λ uuid w. ok (when (text_eq w.rows.user.uuid uuid) w.rows.user);
  find_user_by_id = λ id w. ok (some w.rows.user);
  find_account_by_id = λ id w. ok (some w.rows.account);
  find_account_by_user_id = λ id w. ok (some w.rows.account);
  find_credential_by_id = λ id w. ok (some w.rows.credential);
  find_credential_by_account_id = λ id w. ok (some w.rows.credential);
  find_credential_by_email = λ email w. ok (some w.rows.credential);
  find_credential_by_email_or_username = λ name w. ok (some w.rows.credential);
  persist_credential = λ c w. (ok c, record w { rows = record w.rows { credential = c } });
}

-- The newest token of an account is the active one.
abbrev pub tokens : TokenContract Db
tokens = record {
  find_active_by_credential_account_id =
      λ id now w. ok (find (λ t. t.credential_account_id == id) w.rows.tokens);
  persist = λ t w. (ok t, record w { rows = record w.rows { tokens = t ∷ w.rows.tokens } });
}

abbrev pub verification : VerificationServices Db
verification = record {
  users = users;
  tokens = tokens;
  hash_code = λ code. code;
  to_upper = λ code. code;
  expiration_minutes = 10;
}

abbrev pub reset_tokens : ResetTokenContract Db
reset_tokens = record {
  find_by_token_hash = λ hash w. ok (find (λ t. text_eq t.token_hash hash) w.rows.reset_tokens);
  persist =
      λ t w. (ok t, record w { rows = record w.rows { reset_tokens = t ∷ w.rows.reset_tokens } });
}

-- Every session of which `gone` holds is archived.
abbrev without : (Session → Bool) → Option Session → Option Session
without gone none = none
without gone (some s) = when (not (gone s)) s

abbrev pub with_session : Session → Db → Db
with_session s w = record w {
  rows = record w.rows {
    sessions = λ hash. if text_eq s.token_hash hash then some s else w.rows.sessions hash;
  };
}

abbrev pub archive_sessions : (Session → Bool) → Db → Db
archive_sessions gone w = record w {
  rows = record w.rows { sessions = λ hash. without gone (w.rows.sessions hash) };
}

abbrev pub sessions : SessionContract Db
sessions = record {
  find_by_token_hash = λ hash w. ok (w.rows.sessions hash);
  persist = λ s w. (ok s, with_session s w);
  persist_with_credential = λ s id w. (ok s, with_session s w);
  archive = λ uuid w. (ok tt, archive_sessions (λ s. text_eq s.uuid uuid) w);
  archive_all_by_account_id = λ id w. (ok tt, archive_sessions (λ s. s.account_id == id) w);
}

abbrev pub resets : ResetServices Db
resets = record {
  users = users;
  reset_tokens = reset_tokens;
  sessions = sessions;
  hash_code = λ code. code;
  hash_password = λ password. password;
  in_an_hour = λ now. now;
}

-- The first `n` units of a text, and the rest.
abbrev pub split_at : ℕ → Text → Option (Text × Text)
split_at zero t = some ([], t)
split_at (suc n) [] = none
split_at (suc n) (c ∷ t) = before (split_at n t)
  where
    before : Option (Text × Text) → Option (Text × Text)
    before none = none
    before (some (front, back)) = some (c ∷ front, back)

pub split_at-append : (a b : Text) → split_at (length a) (a ++ b) ≡ some (a, b)
split_at-append [] b = refl
split_at-append (c ∷ a) b = rw (split_at-append a b) refl

-- The lifetimes, in seconds, that the tests know.
abbrev pub lifetime : Text → ℕ
lifetime expires_in = if text_eq expires_in (codes "7d") then 604800 else 900

-- A token is the second in which it expires, its id, the uuid of the user and the email, the id and the
-- uuid with their lengths in front.
abbrev pub written : ℕ → Text → Text → Payload → Text
written now expires_in jti payload =
    (now / 1000 + lifetime expires_in)
    ∷ length jti
    ∷ (jti ++ length payload.sub ∷ (payload.sub ++ payload.email))

abbrev read_email : Option (Text × Text) → Option Decoded
read_email none = none
read_email (some (sub, email)) = some (record { sub = some sub; email = some email })

abbrev read_sub : Option (Text × Text) → Option Decoded
read_sub none = none
read_sub (some (jti, [])) = none
read_sub (some (jti, n ∷ rest)) = read_email (split_at n rest)

abbrev read : Text → Option Decoded
read [] = none
read (expires ∷ []) = none
read (expires ∷ n ∷ rest) = read_sub (split_at n rest)

abbrev verify : ℕ → Text → Outcome AuthError (Unit {0})
verify now [] = throw token_expired
verify now (expires ∷ rest) = if ltb (now / 1000) expires then ok tt else throw token_expired

-- A text of another form is a token of Ana.
abbrev pub or_ana : Option Decoded → Option Decoded
or_ana none = some (record { sub = some (codes "ana"); email = some (codes "a@b.c") })
or_ana (some d) = some d

abbrev pub jwt : Jwt
jwt = record {
  access_expiration = none;
  refresh_expiration = none;
  sign_access = λ now expires_in payload. ok payload.sub;
  sign_refresh = λ now expires_in jti payload. ok (written now expires_in jti payload);
  verify_refresh = verify;
  decode = λ token. or_ana (read token);
}

pub decode-written :
    (now : ℕ) (expires_in jti : Text) (payload : Payload)
    → jwt.decode (written now expires_in jti payload)
      ≡ some (record { sub = some payload.sub; email = some payload.email })
decode-written now expires_in jti payload =
    rw (split_at-append jti (length payload.sub ∷ (payload.sub ++ payload.email)))
      (rw (split_at-append payload.sub payload.email) refl)

pub verify-written :
    (now later : ℕ) (expires_in jti token : Text) (payload : Payload)
    → jwt.sign_refresh now expires_in jti payload ≡ ok token
    → later / 1000 < now / 1000 + lifetime expires_in
    → jwt.verify_refresh later token ≡ ok tt
verify-written now later expires_in jti token payload h alive =
    let same : written now expires_in jti payload ≡ token = cc h in
    let unexpired : ltb (later / 1000) (now / 1000 + lifetime expires_in) ≡ true = ground arith in
    ap (verify later) (sym same) ∙ rw unexpired refl

abbrev pub facades : Facades Db
facades = record {
  get_active_membership = λ uuid w. ok none;
  get_tier_limits = λ uuid w. ok none;
  find_display_name = λ uuid w. ok (some (codes "Ana"));
  find_social_name =
      λ uuid w. ok (record { given_name = none; family_name = none; avatar_url = none });
  get_onboarding_status = λ uuid w. ok none;
  find_username = λ uuid w. ok none;
}

abbrev pub refreshes : RefreshServices Db
refreshes = record {
  sessions = sessions;
  users = users;
  facades = facades;
  jwt = jwt;
  hash_token = λ token. token;
  in_seven_days = λ now. now + 604800000;
  jti = codes "j";
  session_uuid = codes "s2";
}

abbrev pub sign_ins : SignInServices Db
sign_ins = record {
  sessions = sessions;
  users = users;
  facades = facades;
  jwt = jwt;
  compare_passwords = λ password hash. ok (text_eq password hash);
  hash_token = λ token. token;
  in_seven_days = λ now. now + 604800000;
  jti = codes "j";
  session_uuid = codes "s2";
}

abbrev pub tx : Transaction Db
tx = record {
  begin = λ w. (ok tt, record w { saved = w.rows });
  commit = λ w. (ok tt, w);
  rollback = λ w. (ok tt, record w { rows = w.saved });
}

pub tx-Isolates : Isolates tx (λ w. w.rows) (λ w. w.saved)
tx-Isolates = record {
  begin_keeps = λ w. refl;
  begin_saves = λ w. refl;
  commit-saved = λ w _. refl;
  rollback_restores = λ w. refl;
  rollback-saved = λ w. refl;
}

abbrev pub ana : Credential
ana = record {
  id = some 8;
  uuid = codes "c";
  account_id = 2;
  email = codes "a@b.c";
  password_hash = some (codes "h");
  status = pending_verification;
  email_verified_at = none;
  verification_blocked_until = none;
  created_with = codes "email";
  created_at = 1;
  updated_at = 1;
  archived_at = none;
}

abbrev pub code_token : Token
code_token = record {
  id = some 1;
  uuid = codes "t";
  credential_account_id = 8;
  code_hash = codes "ABC234";
  expires_at = 600000;
  used_at = none;
  resend_count = 1;
  last_resent_at = some 1000;
  updated_at = 1000;
  archived_at = none;
}

abbrev pub reset_token : ResetToken
reset_token = record {
  uuid = codes "r";
  credential_account_id = 8;
  token_hash = codes "tok";
  expires_at = 600000;
  used_at = none;
  updated_at = 1000;
  archived_at = none;
}

abbrev pub session : Session
session = record {
  uuid = codes "s";
  account_id = 2;
  token_hash = codes "old";
  expires_at = 900000;
  archived_at = none;
}

-- The account of Ana is 2, her credential account 8; she has a session.
abbrev pub rows : Rows
rows = record {
  user = record { id = 1; uuid = codes "ana"; archived_at = none };
  account = record { id = 2; user_id = 1 };
  credential = ana;
  tokens = code_token ∷ [];
  reset_tokens = reset_token ∷ [];
  sessions = λ hash. when (text_eq (codes "old") hash) session;
}

abbrev pub db : Db
db = record { rows = rows; saved = rows }

-- The database once Ana has verified her email.
abbrev pub verified_db : Db
verified_db = record {
  rows = record rows { credential = record ana { status = active } };
  saved = rows;
}
