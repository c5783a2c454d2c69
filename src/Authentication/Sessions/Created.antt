-- ===== src/Authentication/Sessions/Created.antt =====
-- The session that `SessionAggregate.create` makes.
use stocka_server.Prelude.{ℕ, ◌≡◌, sym, ap, ◌∙◌, none, Text, trim, [], ◌∷◌}
use stocka_server.Shared.Outcome.{ok, and_then-eq-ok, ok-injective}
use stocka_server.Authentication.Services.{empty_token_hash}
use stocka_server.Authentication.VerificationToken.{blank_or}
use stocka_server.Authentication.Sessions.{Session, Applied, create_session, create_token_hash}

create_token_hash-same : (value hash : Text) → create_token_hash value ≡ ok hash → value ≡ hash
unfolding create_token_hash
create_token_hash-same value hash h = kept (trim value) h
  where
    kept : (trimmed : Text) → blank_or empty_token_hash trimmed value ≡ ok hash → value ≡ hash
    kept [] h = cc
    kept (_ ∷ _) h = cc h

-- The session of a token, as it is made.
abbrev pub new_session : Text → ℕ → Text → ℕ → Session
new_session uuid account_id hash expires_at = record {
  uuid = uuid;
  account_id = account_id;
  token_hash = hash;
  expires_at = expires_at;
  archived_at = none;
}

pub create_session-eq-ok :
    (uuid : Text) (account_id : ℕ) (hash : Text) (expires_at : ℕ) (s : Applied Session)
    → create_session uuid account_id hash expires_at ≡ ok s
    → s.0 ≡ new_session uuid account_id hash expires_at
unfolding create_session
create_session-eq-ok uuid account_id hash expires_at s h =
    let (stored, c, h1) = and_then-eq-ok (create_token_hash hash) _ h in
    sym (
      ap (λ hash. new_session uuid account_id hash expires_at)
        (create_token_hash-same hash stored c)
      ∙ ap (λ a. a.0) (ok-injective h1))
