-- ===== src/RateLimit/Tests.antt =====
-- A limit on sign-ins, and the theorems about it applied to concrete requests.
use stocka_server.Prelude.{◌≡◌, refl, false, none, some, List, [], ◌∷◌, codes}
use stocka_server.Shared.Outcome.{ok, throw}
use stocka_server.Users.Credential.{Credential, active}
use stocka_server.RateLimit.Block.{Threshold}
use stocka_server.RateLimit.Guard.{
  Config, Attempts, Passes, too_many, temporarily_locked, other_error, check_ip, check_identifier,
  check_account_block, can_activate, can_activate-Passes,
}

abbrev thresholds : List Threshold
thresholds =
    record { attempts = 5; block_minutes = 5 }
    ∷ record { attempts = 15; block_minutes = 60 }
    ∷ record { attempts = 10; block_minutes = 15 }
    ∷ []

abbrev sign_in : Config
sign_in = record {
  type = codes "sign_in";
  max_attempts_by_ip = 20;
  max_attempts_by_identifier = some 5;
  identifier_source = some (codes "body.email");
  progressive_block = some thresholds;
}

abbrev ana : Credential
ana = record {
  id = some 8;
  uuid = codes "c";
  account_id = 2;
  email = codes "ann@b.c";
  password_hash = some (codes "h");
  status = active;
  email_verified_at = some 1;
  verification_blocked_until = none;
  created_with = codes "email";
  created_at = 1;
  updated_at = 1;
  archived_at = none;
}

-- Three failed attempts, and a block that has run out.
abbrev attempts : Attempts
attempts = record {
  by_ip = λ ip type. ok 3;
  by_identifier = λ identifier type. ok 3;
  find_credential = λ identifier. ok (some (record ana { verification_blocked_until = some 900 }));
}

passed :
    can_activate attempts 1000 false (some sign_in) (codes "10.0.0.1") (some (codes "ann")) ≡ ok tt
unfolding can_activate check_ip check_identifier check_account_block
passed = refl

can_activate-Passes_example : Passes attempts 1000 sign_in 5 (codes "10.0.0.1") (codes "ann")
can_activate-Passes_example =
    can_activate-Passes attempts 1000 sign_in 4 (codes "10.0.0.1") b'a' (codes "nn") b'b'
      (codes "ody.email") refl refl passed

-- An account that is blocked, and a database that does not answer.
abbrev locked : Attempts
locked = record attempts {
  find_credential = λ identifier. ok (some (record ana { verification_blocked_until = some 2000 }));
}

refused :
    can_activate locked 1000 false (some sign_in) (codes "10.0.0.1") (some (codes "ann"))
    ≡ throw (too_many (temporarily_locked 2000 1))
unfolding can_activate check_ip check_identifier check_account_block
refused = refl

abbrev silent : Attempts
silent = record attempts { find_credential = λ identifier. throw (other_error (codes "timeout")) }

swallowed :
    can_activate silent 1000 false (some sign_in) (codes "10.0.0.1") (some (codes "ann")) ≡ ok tt
unfolding can_activate check_ip check_identifier check_account_block
swallowed = refl
