-- ===== src/Authentication/Tests/Continues.antt =====
-- A sign-in and the refresh of its session, on the database in memory.
use stocka_server.Prelude.{
  ◌≡◌, refl, sym, ap, ◌∙◌, subst, some, [], codes, text_eq, text_eq_refl, arith,
}
use stocka_server.Shared.Outcome.{ok}
use stocka_server.Users.Facade.{find_user_by_email_or_username}
use stocka_server.Authentication.SignIn.{run_sign_in}
use stocka_server.Authentication.SignIn.Continues.{Supports, Continues, run_sign_in-Continues}
use stocka_server.Authentication.Tests.{verified_server, some_pair, signed_in}
use stocka_server.Authentication.Tests.Memory

memory-Supports : Supports Memory.sign_ins Memory.tx Memory.lifetime
unfolding find_user_by_email_or_username
memory-Supports = record {
  verifies = Memory.verify-written;
  decodes = λ signed_at expires_in jti token payload h.
      let same : Memory.written signed_at expires_in jti payload ≡ token = cc h in
      ap Memory.jwt.decode (sym same) ∙ Memory.decode-written signed_at expires_in jti payload;
  by_uuid = λ identifier user credential w h.
      let same = (some_pair (w.rows.user, w.rows.credential) user credential h).0 in
      ap (λ u. Memory.users.find_user_by_uuid u.uuid w) (sym same)
      ∙ rw (text_eq_refl w.rows.user.uuid) (ap (λ u. ok (some u)) same);
  stores = λ s persisted id w w' h.
      let saved : Memory.with_session s w ≡ w' = cc h in
      subst (λ w. Memory.sessions.find_by_token_hash s.token_hash w ≡ ok (some s)) saved
        (rw (text_eq_refl s.token_hash) refl);
  users_apart = λ uuid s id w. refl;
  users_commit = λ uuid w. refl;
  sessions_commit = λ hash w. refl;
}

run_sign_in-Continues_example :
    Continues Memory.sign_ins Memory.tx
      (λ e. [])
      2000
      (λ w. w.rows)
      (λ w. w.saved)
      Memory.tx-Isolates
      (λ session id w. refl)
      Memory.lifetime
      memory-Supports
      (codes "a@b.c")
      (codes "h")
      verified_server
      (codes "k")
      (codes "s3")
      604801999
      (run_sign_in Memory.sign_ins Memory.tx
        (λ e. [])
        2000
        (codes "i")
        (codes "j")
        (codes "a@b.c")
        (codes "h")
        verified_server
        []).1
unfolding text_eq
run_sign_in-Continues_example =
    run_sign_in-Continues Memory.sign_ins Memory.tx (λ e. []) 2000 (λ w. w.rows) (λ w. w.saved)
      Memory.tx-Isolates (λ session id w. refl) Memory.lifetime memory-Supports (codes "a@b.c")
      (codes "h") verified_server (codes "k") (codes "s3") 604801999 (codes "i") (codes "j") []
      (omega arith) (omega arith) signed_in
