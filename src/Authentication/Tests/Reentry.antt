-- ===== src/Authentication/Tests/Reentry.antt =====
-- A password that is reset and then used, on the database in memory.
use stocka_server.Prelude.{
  ◌≡◌, refl, ap, none, some, [], ◌∷◌, ◌++◌, codes, text_eq, trim, trim_start, trim_end, is_space,
}
use stocka_server.Shared.Outcome.{ok}
use stocka_server.Users.Facade.{find_user_by_email_or_username}
use stocka_server.Users.Reactions.{on_password_reset}
use stocka_server.Authentication.Services.{password_reset_completed, user_password_reset}
use stocka_server.Authentication.SignIn.{Entrant, check_credentials}
use stocka_server.Authentication.PasswordReset.{run_reset_password}
use stocka_server.Authentication.PasswordReset.Reentry.{
  IsConsistent, IsReady, of_users, with_password, run_reset_password-Readmits,
}
use stocka_server.Authentication.Tests.{server, some_pair, password_reset, memory-IsInTransaction}
use stocka_server.Authentication.Tests.Memory

users-IsConsistent : IsConsistent Memory.users
unfolding find_user_by_email_or_username
users-IsConsistent = record {
  by_id = λ identifier user credential id w h k.
      ap (λ c. ok (some c)) (some_pair (w.rows.user, w.rows.credential) user credential h).1;
  saves = λ identifier user credential saved now hash w h k.
      ap (λ u. ok (some (u, with_password now hash credential)))
        (some_pair (w.rows.user, w.rows.credential) user credential h).0;
}

ana-IsReady :
    IsReady Memory.users users-IsConsistent Memory.sign_ins
      (codes "ana")
      (codes "Str0ng-pass")
      (codes "Str0ng-pass")
      8
      5000
      Memory.verified_db
      Memory.verified_db.rows.user
      Memory.verified_db.rows.credential
unfolding find_user_by_email_or_username text_eq trim trim_start trim_end is_space
ana-IsReady = record {
  owner = refl;
  has_id = refl;
  live = refl;
  confirmed = refl;
  not_blank = refl;
  matches = refl;
  saved = (_, refl);
  named = λ w. (none, refl);
}

run_reset_password-Readmits_example :
    let after_reset =
      run_reset_password Memory.resets 2000 Memory.tx
        (λ e. [])
        (codes "i")
        (codes "j")
        (codes "tok")
        (codes "Str0ng-pass")
        server
        [] in
    let reacted = on_password_reset Memory.users 5000 8 (codes "Str0ng-pass") Memory.verified_db in
    (after_reset.1.server.published
      ≡ [] ++ password_reset_completed 8 ∷ user_password_reset 8 (codes "Str0ng-pass") ∷ [])
    × ((e : Entrant) × (check_credentials
            (of_users Memory.users users-IsConsistent Memory.sign_ins)
            (codes "ana")
            (codes "Str0ng-pass")
            reacted.1
          ≡ ok e)
        × (e.user ≡ Memory.verified_db.rows.user))
unfolding text_eq
run_reset_password-Readmits_example =
    run_reset_password-Readmits Memory.resets Memory.tx (λ e. []) 2000 (λ w. w.rows) (λ w. w.saved)
      Memory.tx-Isolates memory-IsInTransaction users-IsConsistent Memory.sign_ins (codes "i")
      (codes "j") (codes "tok") (codes "Str0ng-pass") server [] Memory.reset_token (codes "ana")
      5000 Memory.verified_db _ _ password_reset refl ana-IsReady
