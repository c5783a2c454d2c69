-- ===== src/Authentication/Tests.antt =====
-- The commands and sagas of the authentication context on a database in memory.
mod Memory
mod Once
mod Continues
mod Reentry
use stocka_server.Prelude.{
  ℕ, Option, text_eq_refl, sym, ap, Bool-cases, inl, inr, ◌∙◌, ◌+◌, ◌*◌, ◌≤◌, ◌<◌, ◌≡◌, refl, Bool,
  true, false, none, some, List, [], ◌∷◌, Text, codes, text_eq, trim, trim_start, trim_end,
  is_space, arith,
}
use stocka_server.Shared.Outcome.{Outcome, ok, throw, is_ok}
use stocka_server.Shared.Bus.{Bus}
use stocka_server.Saga.Retry.{Failure}
use stocka_server.Users.Credential.{UserError, Credential}
use stocka_server.Users.Facade.{
  User, find_user_by_email_or_username, find_user_by_email, find_user_by_uuid_with_credential,
}
use stocka_server.Authentication.Services.{AuthError, AuthEvent, Server}
use stocka_server.Authentication.VerificationToken.{
  Token, can_resend, seconds_until_can_resend, current_cooldown_seconds, mark_as_used, update_code,
  create_code_hash, remaining_resends,
}
use stocka_server.Authentication.VerificationToken.Cooldown.{can_resend-after_wait}
use stocka_server.Authentication.Verification.{ResendRequest, Resent, verify_email_code}
use stocka_server.Authentication.Verification.Activation.{
  IsConsistent, Activates, verify_email_code-Activates,
}
use stocka_server.Authentication.PasswordReset.{
  run_reset_password, validate_reset_token, hash_new_password, mark_token_used,
  archive_user_sessions, publish_reset_events, mark_reset_used,
}
use stocka_server.Authentication.Password.{create_password, has, is_special}
use stocka_server.Authentication.PasswordReset.Reset.{Resets}
use stocka_server.Authentication.PasswordReset.AllOrNothing.{
  IsInTransaction, Outcomes, run_reset_password-Resets,
}
use stocka_server.Saga.Engine.{
  run, run_steps, run_step, begin_before, commit_after, execute_step, cleanup_process,
}
use stocka_server.Authentication.Sessions.{create_session, create_token_hash}
use stocka_server.Authentication.Tokens.{issue_tokens}
use stocka_server.Authentication.Refresh.{
  run_refresh_session, validate_refresh_token, check_refresh_token, archive_old_session,
  generate_new_tokens, create_new_session, publish_refresh_events,
}
use stocka_server.Authentication.Refresh.AllOrNothing as Refresh
use stocka_server.Authentication.Refresh.AllOrNothing.{run_refresh_session-Rotates}
use stocka_server.Authentication.SignIn.{
  run_sign_in, validate_credentials, check_credentials, generate_tokens, create_sign_in_session,
  publish_sign_in_events,
}
use stocka_server.Authentication.SignIn.AllOrNothing as SignIn
use stocka_server.Authentication.Tests.Memory
use stocka_server.Authentication.Tests.Memory.{Db}

abbrev server : Server Db
server = record { db = Memory.db; published = [] }

thirty_left : seconds_until_can_resend 31000 Memory.code_token ≡ 30
unfolding seconds_until_can_resend current_cooldown_seconds
thirty_left = refl

can_resend-after_wait_example : can_resend 61000 Memory.code_token ≡ true
can_resend-after_wait_example =
    can_resend-after_wait 31000 61000 Memory.code_token (omega arith) (omega arith)
      (omega (arith, thirty_left))

abbrev request : ResendRequest
request = record {
  email = codes "a@b.c";
  lang = none;
  now = 100000;
  code = codes "XYZ789";
  uuid = codes "n";
}

some_pair :
    (r : User × Credential) (user : User) (credential : Credential)
    → ◌≡◌ {A = Outcome UserError (Option (User × Credential))}
        (ok (some r))
        (ok (some (user, credential)))
    → (r.0 ≡ user) × (r.1 ≡ credential)
some_pair r user credential h =
    let p : r ≡ (user, credential) = cc h in (ap (λ t. t.0) p, ap (λ t. t.1) p)

memory-IsConsistent : IsConsistent Memory.verification
unfolding find_user_by_email find_user_by_uuid_with_credential
memory-IsConsistent = record {
  by_uuid = λ email user credential w h.
      let (u, c) = some_pair (w.rows.user, w.rows.credential) user credential h in
      ap (λ x. find_user_by_uuid_with_credential Memory.users x.uuid w) (sym u)
      ∙ rw (text_eq_refl w.rows.user.uuid) h;
  by_id = λ email user credential id w h k.
      ap (λ c. ok (some c)) (some_pair (w.rows.user, w.rows.credential) user credential h).1;
  users_apart = λ uuid t w. elim (Bool-cases (text_eq w.rows.user.uuid uuid)) [
    | inl h ↦ rw h refl
    | inr h ↦ rw h refl
  ];
  credentials_apart = λ id t w. refl;
}

verify_email_code-Activates_example :
    let s' =
      (verify_email_code Memory.verification (codes "a@b.c") (codes "ABC234") none 2000 server).1 in
    Activates Memory.verification memory-IsConsistent
      (codes "a@b.c")
      (codes "ABC234")
      none
      2000
      3000
      server
      s'
unfolding verify_email_code find_user_by_email mark_as_used text_eq
verify_email_code-Activates_example =
    verify_email_code-Activates Memory.verification memory-IsConsistent (codes "a@b.c")
      (codes "ABC234") none 2000 3000 server _ verified
  where
    verified :
        verify_email_code Memory.verification (codes "a@b.c") (codes "ABC234") none 2000 server ≡ (
          ok tt,
          (verify_email_code Memory.verification
              (codes "a@b.c")
              (codes "ABC234")
              none
              2000
              server).1,
        )
    verified = refl

memory-IsInTransaction :
    IsInTransaction Memory.resets Memory.tx
      (λ e. [])
      2000
      (λ w. w.rows)
      (λ w. w.saved)
      Memory.tx-Isolates
memory-IsInTransaction = record { persist-saved = λ t w. refl; archive-saved = λ id w. refl }

run_reset_password-Resets_example :
    let t =
      run_reset_password Memory.resets 2000 Memory.tx
        (λ e. [])
        (codes "i")
        (codes "j")
        (codes "tok")
        (codes "Str0ng-pass")
        server
        [] in
    Outcomes Memory.resets Memory.tx
      (λ e. [])
      2000
      (λ w. w.rows)
      (λ w. w.saved)
      Memory.tx-Isolates
      memory-IsInTransaction
      (codes "i")
      (codes "j")
      (codes "tok")
      (codes "Str0ng-pass")
      server
      []
      (t.0, t.1)
run_reset_password-Resets_example =
    run_reset_password-Resets Memory.resets Memory.tx (λ e. []) 2000 (λ w. w.rows) (λ w. w.saved)
      Memory.tx-Isolates memory-IsInTransaction (codes "i") (codes "j") (codes "tok")
      (codes "Str0ng-pass") server []

refresh-IsInTransaction :
    Refresh.IsInTransaction Memory.refreshes Memory.tx
      (λ e. [])
      2000
      (λ w. w.rows)
      (λ w. w.saved)
      Memory.tx-Isolates
refresh-IsInTransaction = record { persist-saved = λ t w. refl; archive-saved = λ uuid w. refl }

run_refresh_session-Rotates_example :
    let t =
      run_refresh_session Memory.refreshes 2000 Memory.tx
        (λ e. [])
        (codes "i")
        (codes "j")
        (codes "old")
        server
        [] in
    Refresh.Outcomes Memory.refreshes Memory.tx
      (λ e. [])
      2000
      (λ w. w.rows)
      (λ w. w.saved)
      Memory.tx-Isolates
      refresh-IsInTransaction
      (codes "i")
      (codes "j")
      (codes "old")
      server
      []
      (t.0, t.1)
run_refresh_session-Rotates_example =
    run_refresh_session-Rotates Memory.refreshes Memory.tx (λ e. []) 2000 (λ w. w.rows)
      (λ w. w.saved) Memory.tx-Isolates refresh-IsInTransaction (codes "i") (codes "j")
      (codes "old") server []

-- The run of the example ends well.
refreshed :
    (run_refresh_session Memory.refreshes 2000 Memory.tx
      (λ e. [])
      (codes "i")
      (codes "j")
      (codes "old")
      server
      []).0
    ≡ ok tt
unfolding run_refresh_session run run_steps run_step begin_before commit_after execute_step
    cleanup_process validate_refresh_token check_refresh_token archive_old_session
    generate_new_tokens issue_tokens create_new_session create_session create_token_hash
    publish_refresh_events text_eq trim trim_start trim_end is_space find_user_by_email
refreshed = refl

abbrev verified_server : Server Db
verified_server = record { db = Memory.verified_db; published = [] }

-- So does this one.
signed_in :
    (run_sign_in Memory.sign_ins Memory.tx
      (λ e. [])
      2000
      (codes "i")
      (codes "j")
      (codes "a@b.c")
      (codes "h")
      verified_server
      []).0
    ≡ ok tt
unfolding run_sign_in run run_steps run_step begin_before commit_after execute_step cleanup_process
    validate_credentials check_credentials generate_tokens issue_tokens create_sign_in_session
    create_session create_token_hash publish_sign_in_events text_eq trim trim_start trim_end
    is_space find_user_by_email_or_username
signed_in = refl

-- And this reset of the password.
password_reset :
    (run_reset_password Memory.resets 2000 Memory.tx
      (λ e. [])
      (codes "i")
      (codes "j")
      (codes "tok")
      (codes "Str0ng-pass")
      server
      []).0
    ≡ ok tt
unfolding run_reset_password run run_steps run_step begin_before commit_after execute_step
    cleanup_process validate_reset_token hash_new_password mark_token_used archive_user_sessions
    publish_reset_events mark_reset_used create_password has is_special text_eq
password_reset = refl
