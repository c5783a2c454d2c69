-- ===== src/Authentication/PasswordReset/Once.antt =====
-- The token of a reset: it is not accepted a second time.
use stocka_server.Prelude.{
  ℕ, ◌≡◌, refl, sym, ap, ◌∙◌, Bool-cases, inl, inr, is_some, Option, none, some, true, false, ltb,
  Text, codes,
}
use stocka_server.Shared.Outcome.{ok, ok-injective}
use stocka_server.Saga.Retry.{Failure}
use stocka_server.Saga.Process.{States}
use stocka_server.Authentication.Services.{AuthError, Server}
use stocka_server.Authentication.Sessions.{SessionContract, World}
use stocka_server.Authentication.Sagas.{Transaction, Isolates}
use stocka_server.Authentication.Sagas.Atomic.{Untouched}
use stocka_server.Authentication.PasswordReset.{
  ResetToken, reset_is_valid, mark_reset_used, ResetTokenContract, ResetServices, ResetContext,
  run_reset_password,
}
use stocka_server.Authentication.PasswordReset.Reset.{at, Resets}
use stocka_server.Authentication.PasswordReset.AllOrNothing.{
  IsInTransaction, run_reset_password-Resets,
}

-- The table of reset tokens: a change of the columns `used_at` and `updated_at` is seen by the next
-- query, and neither the transaction nor the table of sessions has a say in it.
pub record Remembers {W : Type 0} (reset_tokens : ResetTokenContract W)
    (sessions : SessionContract W) (tx : Transaction W) : Type 0 where
  pub marks :
      (hash : Text) (t r : ResetToken) (used_at : Option ℕ) (updated_at : ℕ) (w : W)
      → reset_tokens.find_by_token_hash hash w ≡ ok (some t)
      → (reset_tokens.persist (record t { used_at = used_at; updated_at = updated_at }) w).0 ≡ ok r
      → reset_tokens.find_by_token_hash hash
          (reset_tokens.persist (record t { used_at = used_at; updated_at = updated_at }) w).1
        ≡ ok (some (record t { used_at = used_at; updated_at = updated_at }))
  pub apart_archive :
      (hash : Text) (id : ℕ) (w : W)
      → reset_tokens.find_by_token_hash hash (sessions.archive_all_by_account_id id w).1
        ≡ reset_tokens.find_by_token_hash hash w
  pub apart_begin :
      (hash : Text) (w : W)
      → reset_tokens.find_by_token_hash hash (tx.begin w).1 ≡ reset_tokens.find_by_token_hash hash w
  pub apart_commit :
      (hash : Text) (w : W)
      → reset_tokens.find_by_token_hash hash (tx.commit w).1
        ≡ reset_tokens.find_by_token_hash hash w

-- A token that was used is not valid.
used_reset-Invalid :
    (now used_at updated_at : ℕ) (t : ResetToken)
    → reset_is_valid now (record t { used_at = some used_at; updated_at = updated_at }) ≡ false
used_reset-Invalid now used_at updated_at t = elim (Bool-cases (is_some t.archived_at)) [
  | inl h ↦ rw h refl
  | inr h ↦
      rw h (elim (Bool-cases (ltb t.expires_at now)) [ inl e ↦ rw e refl | inr e ↦ rw e refl ])
]

module _ {W R : Type 0} (sv : ResetServices W) (tx : Transaction W)
    (message : Failure AuthError → Text) (now : ℕ) (rows saved : W → R)
    (isolates : Isolates tx rows saved)
    (transactional : IsInTransaction sv tx message now rows saved isolates)
    (remembers : Remembers sv.reset_tokens sv.sessions tx) (token : Text) where
  -- The token, once it was used.
  abbrev IsUsed : ResetToken → W → Type 0
  IsUsed t w =
      sv.reset_tokens.find_by_token_hash (sv.hash_code token) w
      ≡ ok (some (record t { used_at = some now; updated_at = now }))

  Resets-IsUsed :
      (new_password : Text) (s : Server W) (q : World ResetContext W)
      → Resets sv tx message now token new_password s q
      → (t : ResetToken) × IsUsed t q.server.db
  unfolding mark_reset_used
  Resets-IsUsed new_password s q r =
      let hash = sv.hash_code token in
      let t = r.reset_token in
      (
        t,
        ap (sv.reset_tokens.find_by_token_hash hash) r.committed
            ∙ remembers.apart_commit hash _
            ∙ remembers.apart_archive hash t.credential_account_id _
            ∙ remembers.marks hash t r.saved.0 (some now) now _ r.authorised.found r.saved.1,
      )

  -- A used token resets no password.
  used_refused :
      (later : ℕ) (other_password : Text) (t : ResetToken) (s : Server W) (q : World ResetContext W)
      → IsUsed t s.db
      → Resets sv tx message later token other_password s q
      → ⊥
  used_refused later other_password t s q used r =
      let found : some r.reset_token ≡ some (record t { used_at = some now; updated_at = now }) =
        ok-injective
          (sym r.authorised.found ∙ remembers.apart_begin (sv.hash_code token) s.db ∙ used) in
      let same : r.reset_token ≡ record t { used_at = some now; updated_at = now } = cc found in
      let valid : true ≡ false =
        sym r.authorised.valid
        ∙ ap (reset_is_valid later) same
        ∙ used_reset-Invalid later now now t in
      cc valid

  module _ (id correlation_id new_password : Text) (s : Server W) (states : States) where
    -- A reset token is used once: after a run of reset-password that ended well, another run with the
    -- same token throws, whatever the password and the time, and leaves the rows and the event bus as
    -- they were.
    pub run_reset_password_once :
        (id' correlation_id' other_password : Text) (later : ℕ)
        → (run_reset_password sv now tx message id correlation_id token new_password s states).0
          ≡ ok tt
        → let first =
            run_reset_password sv now tx message id correlation_id token new_password s states in
          let second =
            run_reset_password sv later tx message id' correlation_id' token other_password
              first.1.server first.2 in
          Untouched tx message later
            (codes "reset-password")
            rows
            saved
            isolates
            (at sv tx message later token other_password first.1.server none none first.1.server.db)
            (second.0, second.1)
    run_reset_password_once id' correlation_id' other_password later h =
        let first =
          run_reset_password sv now tx message id correlation_id token new_password s states in
        let used : (t : ResetToken) × IsUsed t first.1.server.db =
          elim (run_reset_password-Resets sv tx message now rows saved isolates transactional id
            correlation_id token new_password s states) [
              | inl (_, r) ↦ Resets-IsUsed new_password s first.1 r
              | inr ((e, t), _, _) ↦ cc (h, t)
            ] in
        let again : IsInTransaction sv tx message later rows saved isolates = record {
          persist-saved = transactional.persist-saved;
          archive-saved = transactional.archive-saved;
        } in
        let second =
          run_reset_password sv later tx message id' correlation_id' token other_password
            first.1.server first.2 in
        elim (run_reset_password-Resets sv tx message later rows saved isolates again id'
          correlation_id' token other_password first.1.server first.2) [
            | inl (_, r) ↦
                absurd (used_refused later other_password used.0 first.1.server second.1 used.1 r)
            | inr u ↦ u
          ]
