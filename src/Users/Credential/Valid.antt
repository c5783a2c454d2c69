-- ===== src/Users/Credential/Valid.antt =====
-- The invariant of a credential account, from its creation on.
use stocka_server.Prelude.{
  ℕ, ◌≡◌, refl, sym, ap, ◌∙◌, Bool, true, Bool-cases, inl, inr, Option, none, some, is_some, List,
  [], ◌∷◌, ltb, length, Text, text_eq, subst, trim, trim_start, trim_end, trim_idem,
}
use stocka_server.Shared.Outcome.{ok, and_then, and_then-eq-ok, ok-injective}
use stocka_server.Users.Email.{create_email, is_email}
use stocka_server.Users.Credential.{
  AccountStatus, invalid_email, pending_verification, active, email_verified_by_provider, blocked,
  archived, status_text, create_status, status_can_access, check_provider, create_provider,
  create_hash, create_optional_hash, is_provider, Credential, Props, construct, create_credential,
  create_from_social, is_email_verified, can_access_application, verify_email, block_verification,
  unblock_verification, update_password_hash, Method, call_verify_email, call_block_verification,
  call_unblock_verification, call_update_password_hash, call, call_all, is_empty,
}

-- Of lower case the value objects rely on this: it is idempotent and commutes with `trim`.
pub record IsLowerCase (to_lower : Text → Text) : Type 0 where
  pub lower_idem : (s : Text) → to_lower (to_lower s) ≡ to_lower s
  pub trim-lower : (s : Text) → trim (to_lower s) ≡ to_lower (trim s)

-- Each value is one that its value object takes as it is.
pub record IsValid (validate : Text → Bool) (to_lower : Text → Text) (c : Credential) : Type 0 where
  pub uuid_taken : validate c.uuid ≡ true
  pub email_taken : create_email to_lower invalid_email c.email ≡ ok c.email
  pub email_lower : to_lower c.email ≡ c.email
  pub hash_taken : create_optional_hash c.password_hash ≡ ok c.password_hash
  pub provider_taken : create_provider c.created_with ≡ ok c.created_with

-- Only a verified account may access the application.
abbrev pub IsCoherent : Credential → Type 0
IsCoherent c = is_email_verified c ≡ can_access_application c

pub status_taken : (s : AccountStatus) → create_status (status_text s) ≡ ok s
unfolding create_status text_eq
status_taken pending_verification = refl
status_taken active = refl
status_taken email_verified_by_provider = refl
status_taken blocked = refl
status_taken archived = refl

create_email_inv :
    (to_lower : Text → Text) (value email : Text)
    → create_email to_lower invalid_email value ≡ ok email
    → (email ≡ to_lower (trim value)) × (is_email email ≡ true)
unfolding create_email
create_email_inv to_lower value email h = elim (Bool-cases (is_email (to_lower (trim value)))) [
  | inl e ↦
      let same : to_lower (trim value) ≡ email = ok-injective (rw e at h) in
      (sym same, ap is_email (sym same) ∙ e)
  | inr e ↦ cc (rw e at h)
]

create_email_taken :
    (to_lower : Text → Text) (email : Text)
    → to_lower (trim email) ≡ email
    → is_email email ≡ true
    → create_email to_lower invalid_email email ≡ ok email
unfolding create_email
create_email_taken to_lower email h k = rw h (rw k)

check_provider-same : (s p : Text) → check_provider s ≡ ok p → s ≡ p
check_provider-same [] p h = cc
check_provider-same (c ∷ s) p h = elim (Bool-cases (ltb 30 (length (c ∷ s)))) [
  | inl e ↦ cc (rw e at h)
  | inr e ↦ elim (Bool-cases (is_provider (c ∷ s))) [
    | inl k ↦ ok-injective (rw k at (rw e at h))
    | inr k ↦ cc (rw k at (rw e at h))
  ]
]

create_provider_taken : (value p : Text) → create_provider value ≡ ok p → create_provider p ≡ ok p
unfolding create_provider
create_provider_taken value p h =
    let same : trim value ≡ p = check_provider-same (trim value) p h in
    ap check_provider (ap trim (sym same) ∙ trim_idem value) ∙ h

create_hash-same : (s h : Text) → create_hash s ≡ ok h → s ≡ h
create_hash-same s h k = elim (Bool-cases (is_empty (trim s))) [
  | inl e ↦ cc (rw e at k)
  | inr e ↦ ok-injective (rw e at k)
]

optional_hash_taken :
    (s h : Text) → create_hash s ≡ ok h → create_optional_hash (some h) ≡ ok (some h)
unfolding create_optional_hash trim trim_start trim_end
optional_hash_taken [] h k = cc
optional_hash_taken (c ∷ s) h k =
    let same = create_hash-same (c ∷ s) h k in
    subst (λ h. create_optional_hash (some h) ≡ ok (some h)) same
      (ap (λ r. and_then r λ hash. ok (some hash)) (k ∙ ap (λ h. ok h) (sym same)))

create_optional_hash_taken :
    (value hash : Option Text)
    → create_optional_hash value ≡ ok hash
    → create_optional_hash hash ≡ ok hash
unfolding create_optional_hash
create_optional_hash_taken none hash h =
    let same : none ≡ hash = ok-injective h in subst (λ o. create_optional_hash o ≡ ok o) same refl
create_optional_hash_taken (some []) hash h =
    let same : none ≡ hash = ok-injective h in subst (λ o. create_optional_hash o ≡ ok o) same refl
create_optional_hash_taken (some (c ∷ s)) hash h =
    let (t, e, k) = and_then-eq-ok (create_hash (c ∷ s)) (λ hash. ok (some hash)) h in
    subst (λ o. create_optional_hash o ≡ ok o) (ok-injective k) (optional_hash_taken (c ∷ s) t e)

module _ (validate : Text → Bool) (to_lower : Text → Text) (lower : IsLowerCase to_lower) where
  -- What the constructor makes of its properties.
  record Built (p : Props) (c : Credential) : Type 0 where
    valid : IsValid validate to_lower c
    same_verified : c.email_verified_at ≡ p.email_verified_at
    same_status : create_status p.status ≡ ok c.status

  email_normal : (value : Text) → to_lower (trim (to_lower (trim value))) ≡ to_lower (trim value)
  email_normal value =
      ap to_lower (lower.trim-lower (trim value) ∙ ap to_lower (trim_idem value))
      ∙ lower.lower_idem (trim value)

  construct-Built : (p : Props) (c : Credential) → construct validate to_lower p ≡ ok c → Built p c
  unfolding construct
  construct-Built p c h = elim (Bool-cases (validate p.uuid)) [
    | inl v ↦
        let (email, e, h1) =
          and_then-eq-ok (create_email to_lower invalid_email p.email) _ (rw v at h) in
        let (hash, f, h2) = and_then-eq-ok (create_optional_hash p.password_hash) _ h1 in
        let (status, g, h3) = and_then-eq-ok (create_status p.status) _ h2 in
        let (provider, k, h4) = and_then-eq-ok (create_provider p.created_with) _ h3 in
        let (same, shape) = create_email_inv to_lower p.email email e in
        let normal : to_lower (trim email) ≡ email =
          ap (λ e. to_lower (trim e)) same ∙ email_normal p.email ∙ sym same in
        subst (Built p) (ok-injective h4) (record {
          valid = record {
            uuid_taken = v;
            email_taken = create_email_taken to_lower email normal shape;
            email_lower = ap to_lower same ∙ lower.lower_idem (trim p.email) ∙ sym same;
            hash_taken = create_optional_hash_taken p.password_hash hash f;
            provider_taken = create_provider_taken p.created_with provider k;
          };
          same_verified = refl;
          same_status = g;
        })
    | inr v ↦ cc (rw v at h)
  ]

  -- The invariant.
  pub record IsSound (c : Credential) : Type 0 where
    pub valid : IsValid validate to_lower c
    pub coherent : IsCoherent c

  IsCoherent-from :
      (c : Credential) (verified : Option ℕ) (status : AccountStatus)
      → c.email_verified_at ≡ verified
      → status ≡ c.status
      → is_some verified ≡ status_can_access status
      → IsCoherent c
  IsCoherent-from c verified status h k e = ap is_some h ∙ e ∙ ap status_can_access k

  pub create_credential-IsSound :
      (now : ℕ) (uuid : Text) (account_id : ℕ) (email : Text) (hash : Option Text) (with : Text)
      (c : Credential)
      → create_credential validate to_lower now uuid account_id email hash with ≡ ok c
      → IsSound c
  unfolding create_credential
  create_credential-IsSound now uuid account_id email hash with c h =
      let built = construct-Built _ c h in
      record {
        valid = built.valid;
        coherent =
            IsCoherent-from c none pending_verification built.same_verified
              (ok-injective (sym (status_taken pending_verification) ∙ built.same_status)) refl;
      }

  pub create_from_social-IsSound :
      (now : ℕ) (uuid : Text) (account_id : ℕ) (email provider : Text) (c : Credential)
      → create_from_social validate to_lower now uuid account_id email provider ≡ ok c
      → IsSound c
  unfolding create_from_social
  create_from_social-IsSound now uuid account_id email provider c h =
      let built = construct-Built _ c h in
      record {
        valid = built.valid;
        coherent =
            IsCoherent-from c (some now) email_verified_by_provider built.same_verified
              (ok-injective (sym (status_taken email_verified_by_provider) ∙ built.same_status))
              refl;
      }

  -- The values that no method changes, with a password hash that is taken.
  same_values :
      (c d : Credential)
      → IsValid validate to_lower c
      → d.uuid ≡ c.uuid
      → d.email ≡ c.email
      → d.created_with ≡ c.created_with
      → create_optional_hash d.password_hash ≡ ok d.password_hash
      → IsValid validate to_lower d
  same_values c d v u e w h = record {
    uuid_taken = rw u v.uuid_taken;
    email_taken = rw e v.email_taken;
    email_lower = rw e v.email_lower;
    hash_taken = h;
    provider_taken = rw w v.provider_taken;
  }

  call-IsSound : (m : Method) (c d : Credential) → IsSound c → call m c ≡ ok d → IsSound d
  unfolding call verify_email block_verification unblock_verification update_password_hash
  call-IsSound (call_verify_email now) c d s h = subst IsSound (ok-injective h) (record {
    valid = same_values c _ s.valid refl refl refl s.valid.hash_taken;
    coherent = refl;
  })
  call-IsSound (call_block_verification now until) c d s h =
      subst IsSound (ok-injective h) (record {
        valid = same_values c _ s.valid refl refl refl s.valid.hash_taken;
        coherent = s.coherent;
      })
  call-IsSound (call_unblock_verification now) c d s h = subst IsSound (ok-injective h) (record {
    valid = same_values c _ s.valid refl refl refl s.valid.hash_taken;
    coherent = s.coherent;
  })
  call-IsSound (call_update_password_hash now hash) c d s h =
      let (t, e, k) = and_then-eq-ok (create_hash hash) _ h in
      subst IsSound (ok-injective k) (record {
        valid = same_values c _ s.valid refl refl refl (optional_hash_taken hash t e);
        coherent = s.coherent;
      })

  -- Whatever calls of its methods follow, a sound credential account stays sound: every value is one
  -- that its value object takes unchanged, the e-mail address is in lower case, and the address is
  -- verified exactly when the account may access the application.
  pub call_all-IsSound :
      (ms : List Method) (c d : Credential) → IsSound c → call_all ms c ≡ ok d → IsSound d
  unfolding call_all
  call_all-IsSound [] c d s h = subst IsSound (ok-injective h) s
  call_all-IsSound (m ∷ ms) c d s h =
      let (e, h1, h2) = and_then-eq-ok (call m c) (call_all ms) h in
      call_all-IsSound ms e d (call-IsSound m c e s h1) h2
