-- ===== src/RateLimit/Guard.antt =====
-- `RateLimitGuard.canActivate` (src/common/guards/rate-limit.guard.ts), on a request whose address and
-- identifier have been read. An exception is that of the HTTP answer 429.
use stocka_server.Prelude.{
  ℕ, zero, suc, ◌+◌, ◌-◌, ◌/◌, ◌≤◌, ◌<◌, ◌≡◌, refl, sym, ap, ◌∙◌, Bool, true, false, Option, none,
  some, List, [], ◌∷◌, ltb, leb, if◌then◌else◌, Bool-cases, ◌⊎◌, inl, inr, arith, Text,
}
use stocka_server.Shared.Outcome.{Outcome, ok, err, throw, and_then, and_then-eq-ok}
use stocka_server.Users.Credential.{Credential}
use stocka_server.RateLimit.Block.{Threshold}

-- `RateLimitConfig`, as far as the guard reads it.
pub record Config : Type 0 where
  pub type : Text
  pub max_attempts_by_ip : ℕ
  pub max_attempts_by_identifier : Option ℕ
  pub identifier_source : Option Text
  pub progressive_block : Option (List Threshold)

pub data TooMany : Type 0 where
  ip_exceeded identifier_exceeded : TooMany
  temporarily_locked : ℕ → ℕ → TooMany  -- until when, and the minutes that remain

-- What is thrown in the guard: its own answers 429, another `HttpException`, or any other error, as that
-- of a database that does not answer.
pub data GuardError : Type 0 where
  too_many : TooMany → GuardError
  http_exception : Text → GuardError
  other_error : Text → GuardError

-- `error instanceof HttpException`
abbrev pub is_http_exception : GuardError → Bool
is_http_exception (too_many _) = true
is_http_exception (http_exception _) = true
is_http_exception (other_error _) = false

abbrev pub Check : Type 0
Check = Outcome GuardError (Unit {0})

-- What the guard asks, where a rejected promise is a `throw`: the failed attempts of the last hour, and
-- the credential account of an identifier (`findUserByEmailOrUsername`).
pub record Attempts : Type 0 where
  pub by_ip : Text → Text → Outcome GuardError ℕ
  pub by_identifier : Text → Text → Outcome GuardError ℕ
  pub find_credential : Text → Outcome GuardError (Option Credential)

-- `credential?.verificationBlockedUntil`
abbrev pub blocked_until : Option Credential → Option ℕ
blocked_until none = none
blocked_until (some c) = c.verification_blocked_until

-- `Math.ceil(ms / 60000)`
abbrev pub minutes_of : ℕ → ℕ
minutes_of ms = (ms + 59999) / 60000

-- `catch (error) { if (error instanceof HttpException) throw error; }`
abbrev pub rethrow_http : Check → Check
rethrow_http (ok _) = ok tt
rethrow_http (err e) = err e
rethrow_http (throw e) = if is_http_exception e then throw e else ok tt

module _ (attempts : Attempts) (now : ℕ) where
  abbrev pub check_until : Option ℕ → Check
  check_until none = ok tt
  check_until (some until) =
      if ltb now until
      then throw (too_many (temporarily_locked until (minutes_of (until - now))))
      else ok tt

  -- `checkAccountBlock`
  unfoldable pub check_account_block : Text → Check
  check_account_block identifier = rethrow_http (
      and_then (attempts.find_credential identifier)
        λ credential. check_until (blocked_until credential))

  abbrev pub check_progressive : Text → Option (List Threshold) → Check
  check_progressive identifier none = ok tt
  check_progressive identifier (some thresholds) = check_account_block identifier

  unfoldable pub check_identifier : Config → ℕ → Text → Check
  check_identifier config limit identifier =
      and_then (attempts.by_identifier identifier config.type) λ count.
        if leb limit count
        then throw (too_many identifier_exceeded)
        else check_progressive identifier config.progressive_block

  -- `if (identifier)`: the empty text is none.
  abbrev pub check_given : Config → ℕ → Option Text → Check
  check_given config limit none = ok tt
  check_given config limit (some []) = ok tt
  check_given config limit (some (c ∷ identifier)) = check_identifier config limit (c ∷ identifier)

  -- `if (config.maxAttemptsByIdentifier && config.identifierSource)`: 0 is none, and so is the empty text.
  abbrev pub check_configured : Config → Option Text → Option ℕ → Option Text → Check
  check_configured config identifier none source = ok tt
  check_configured config identifier (some zero) source = ok tt
  check_configured config identifier (some (suc limit)) none = ok tt
  check_configured config identifier (some (suc limit)) (some []) = ok tt
  check_configured config identifier (some (suc limit)) (some (c ∷ source)) =
      check_given config (suc limit) identifier

  unfoldable pub check_ip : Config → Text → Check
  check_ip config ip =
      and_then (attempts.by_ip ip config.type)
        λ count. if leb config.max_attempts_by_ip count then throw (too_many ip_exceeded) else ok tt

  -- `canActivate`; without a configuration nothing is limited, nor under `E2E_MODE`.
  unfoldable pub can_activate : Bool → Option Config → Text → Option Text → Check
  can_activate e2e_mode none ip identifier = ok tt
  can_activate e2e_mode (some config) ip identifier =
      if e2e_mode
      then ok tt
      else (and_then (check_ip config ip) λ _.
          check_configured config identifier config.max_attempts_by_identifier
            config.identifier_source)

  abbrev pub IsPast : Option ℕ → Type 0
  IsPast none = Unit
  IsPast (some until) = until ≤ now

  -- Why a block does not stop a request: no account of the identifier is blocked any more, or the
  -- account could not be looked up, for another reason than an `HttpException`.
  pub data Unblocked (identifier : Text) : Type 0 where
    open_account :
        (found : Option Credential)
        → attempts.find_credential identifier ≡ ok found
        → IsPast (blocked_until found)
        → Unblocked identifier
    lookup_failed :
        (e : GuardError)
        → attempts.find_credential identifier ≡ throw e
        → is_http_exception e ≡ false
        → Unblocked identifier

  -- A request that passes a guard with both limits: its address and its identifier have fewer failed
  -- attempts than the limits, and if blocks are configured none stops it.
  pub record Passes (config : Config) (limit : ℕ) (ip identifier : Text) : Type 0 where
    pub ip_count : ℕ
    pub ip_counted : attempts.by_ip ip config.type ≡ ok ip_count
    pub ip_below : ip_count < config.max_attempts_by_ip
    pub identifier_count : ℕ
    pub identifier_counted : attempts.by_identifier identifier config.type ≡ ok identifier_count
    pub identifier_below : identifier_count < limit
    pub unblocked : (config.progressive_block ≡ none) ⊎ Unblocked identifier

  until_passed : (o : Option ℕ) → check_until o ≡ ok tt → IsPast o
  until_passed none h = tt
  until_passed (some until) h = ground arith

  rethrow_until : (o : Option ℕ) → rethrow_http (check_until o) ≡ ok tt → check_until o ≡ ok tt
  rethrow_until none h = refl
  rethrow_until (some until) h = elim (Bool-cases (ltb now until)) [
    | inl k ↦ cc (rw k at h)
    | inr k ↦ rw k refl
  ]

  found_passed :
      (identifier : Text) (r : Outcome GuardError (Option Credential))
      → attempts.find_credential identifier ≡ r
      → rethrow_http (and_then r λ credential. check_until (blocked_until credential)) ≡ ok tt
      → Unblocked identifier
  found_passed identifier (ok found) f h =
      open_account found f (until_passed (blocked_until found) (rethrow_until _ h))
  found_passed identifier (err e) f h = cc
  found_passed identifier (throw e) f h = elim (Bool-cases (is_http_exception e)) [
    | inl k ↦ cc (rw k at h)
    | inr k ↦ lookup_failed e f k
  ]

  progressive_passed :
      (identifier : Text) (o : Option (List Threshold))
      → check_progressive identifier o ≡ ok tt
      → (o ≡ none) ⊎ Unblocked identifier
  unfolding check_account_block
  progressive_passed identifier none h = inl refl
  progressive_passed identifier (some thresholds) h =
      inr (found_passed identifier (attempts.find_credential identifier) refl h)

  below :
      (limit count : ℕ) (e : TooMany) (rest : Check)
      → (if leb limit count then throw (too_many e) else rest) ≡ ok tt
      → (count < limit) × (rest ≡ ok tt)
  below limit count e rest h = elim (Bool-cases (leb limit count)) [
    | inl k ↦ cc (rw k at h)
    | inr k ↦ (ground arith, rw k at h)
  ]

  -- A configured guard only lets a request pass if its address and its identifier have fewer failed
  -- attempts in the last hour than the limits, and, if blocks are configured, its account is not
  -- blocked or the lookup of the account failed with an error that is no HttpException.
  pub can_activate-Passes :
      (config : Config) (limit : ℕ) (ip : Text) (c : ℕ) (identifier : Text) (d : ℕ) (source : Text)
      → config.max_attempts_by_identifier ≡ some (suc limit)
      → config.identifier_source ≡ some (d ∷ source)
      → can_activate false (some config) ip (some (c ∷ identifier)) ≡ ok tt
      → Passes config (suc limit) ip (c ∷ identifier)
  unfolding can_activate check_ip check_identifier
  can_activate-Passes config limit ip c identifier d source m s h =
      let (_, by_ip, h1) = and_then-eq-ok (check_ip config ip) _ h in
      let (ip_count, ip_counted, k1) = and_then-eq-ok (attempts.by_ip ip config.type) _ by_ip in
      let h2 : check_identifier config (suc limit) (c ∷ identifier) ≡ ok tt =
        ap (λ t. check_configured config (some (c ∷ identifier)) t (some (d ∷ source))) (sym m)
        ∙ ap
            (λ t.
              check_configured config (some (c ∷ identifier)) config.max_attempts_by_identifier t)
            (sym s)
        ∙ h1 in
      let (count, counted, k2) =
        and_then-eq-ok (attempts.by_identifier (c ∷ identifier) config.type) _ h2 in
      let (ip_below, _) = below config.max_attempts_by_ip ip_count ip_exceeded (ok tt) k1 in
      let (identifier_below, rest) =
        below (suc limit) count identifier_exceeded
          (check_progressive (c ∷ identifier) config.progressive_block) k2 in
      record {
        ip_count = ip_count;
        ip_counted = ip_counted;
        ip_below = ip_below;
        identifier_count = count;
        identifier_counted = counted;
        identifier_below = identifier_below;
        unblocked = progressive_passed (c ∷ identifier) config.progressive_block rest;
      }
