-- ===== src/Authentication/Tests/Once.antt =====
-- Tokens that are used twice, on the database in memory.
use stocka_server.Prelude.{
  ℕ, List, find, ◌∷◌, arith, ◌≡◌, refl, ap, ◌∙◌, subst, inl, inr, true, Bool-cases, none, some, [],
  Text, codes, text_eq, text_eq_refl, eq_of_text_eq,
}
use stocka_server.Shared.Outcome.{Outcome, ok}
use stocka_server.Saga.Retry.{Failure}
use stocka_server.Saga.Process.{States}
use stocka_server.Authentication.Services.{AuthError}
use stocka_server.Authentication.Sessions.{World}
use stocka_server.Authentication.Sagas.Atomic.{Untouched}
use stocka_server.Authentication.Refresh.{RefreshContext, RefreshServices, run_refresh_session}
use stocka_server.Authentication.Refresh.Rotation.{start}
use stocka_server.Authentication.Refresh.Once.{Forgets, IsFresh, run_refresh_session_once}
use stocka_server.Authentication.PasswordReset.{ResetToken, ResetContext, run_reset_password}
use stocka_server.Authentication.PasswordReset.Reset.{at}
use stocka_server.Authentication.PasswordReset.Once.{Remembers, run_reset_password_once}
use stocka_server.Authentication.Tests.{
  server, refreshed, refresh-IsInTransaction, password_reset, memory-IsInTransaction,
}
use stocka_server.Authentication.Tests.Memory
use stocka_server.Authentication.Tests.Memory.{Db}

memory-Forgets : Forgets Memory.sessions Memory.tx
memory-Forgets = record {
  hides = λ hash s w w' f a.
      let gone : Memory.archive_sessions (λ t. text_eq t.uuid s.uuid) w ≡ w' = cc a in
      let row : w.rows.sessions hash ≡ some s = cc f in
      subst (λ w. Memory.sessions.find_by_token_hash hash w ≡ ok none) gone
        (rw row (rw (text_eq_refl s.uuid) refl));
  apart = λ hash s w other. elim (Bool-cases (text_eq s.token_hash hash)) [
    | inl h ↦ absurd (other (eq_of_text_eq s.token_hash hash h))
    | inr h ↦ rw h refl
  ];
  apart_begin = λ hash w. refl;
  apart_commit = λ hash w. refl;
}

abbrev first_refresh : Outcome (Failure AuthError) (Unit {0}) × World RefreshContext Db × States
first_refresh =
    run_refresh_session Memory.refreshes 2000 Memory.tx (λ e. []) (codes "i") (codes "j")
      (codes "old") server []

abbrev next_refreshes : RefreshServices Db
next_refreshes = record Memory.refreshes { jti = codes "k"; session_uuid = codes "s3" }

abbrev first_code : Text → ℕ
first_code [] = 0
first_code (c ∷ _) = c

-- A token of the first run starts with the second in which it expires.
other_hash :
    IsFresh Memory.refreshes Memory.tx
      (λ e. [])
      2000
      (λ w. w.rows)
      (λ w. w.saved)
      Memory.tx-Isolates
      refresh-IsInTransaction
      memory-Forgets
      (codes "old")
unfolding text_eq
other_hash payload signed h same =
    let signed_text : Memory.written 2000 (codes "7d") (codes "j") payload ≡ signed = cc h in
    let initials : first_code (Memory.written 2000 (codes "7d") (codes "j") payload)
        ≡ first_code (codes "old") =
      ap first_code (signed_text ∙ same) in
    omega (arith, initials)

run_refresh_session_once_example :
    let second =
      run_refresh_session next_refreshes 3000 Memory.tx
        (λ e. [])
        (codes "x")
        (codes "y")
        (codes "old")
        first_refresh.1.server
        first_refresh.2 in
    Untouched Memory.tx
      (λ e. [])
      3000
      (codes "refresh-session")
      (λ w. w.rows)
      (λ w. w.saved)
      Memory.tx-Isolates
      (start next_refreshes Memory.tx (λ e. []) 3000 (codes "old") first_refresh.1.server)
      (second.0, second.1)
run_refresh_session_once_example =
    run_refresh_session_once Memory.refreshes Memory.tx (λ e. []) 2000 (λ w. w.rows) (λ w. w.saved)
      Memory.tx-Isolates refresh-IsInTransaction memory-Forgets (codes "old") (codes "i")
      (codes "j") server [] (codes "k") (codes "s3") (codes "x") (codes "y") 3000 other_hash
      refreshed

found_hash :
    (hash : Text) (t : ResetToken) (rows : List ResetToken)
    → find (λ t. text_eq t.token_hash hash) rows ≡ some t
    → text_eq t.token_hash hash ≡ true
found_hash hash t [] f = cc
found_hash hash t (r ∷ rows) f = elim (Bool-cases (text_eq r.token_hash hash)) [
  | inl h ↦
      let same : r ≡ t = cc (rw h at f) in subst (λ t. text_eq t.token_hash hash ≡ true) same h
  | inr h ↦ found_hash hash t rows (rw h at f)
]

memory-Remembers : Remembers Memory.reset_tokens Memory.sessions Memory.tx
memory-Remembers = record {
  marks = λ hash t r used_at updated_at w f p.
      let row : find (λ t. text_eq t.token_hash hash) w.rows.reset_tokens ≡ some t = cc f in
      rw (found_hash hash t w.rows.reset_tokens row) refl;
  apart_archive = λ hash id w. refl;
  apart_begin = λ hash w. refl;
  apart_commit = λ hash w. refl;
}

abbrev first_reset : Outcome (Failure AuthError) (Unit {0}) × World ResetContext Db × States
first_reset =
    run_reset_password Memory.resets 2000 Memory.tx (λ e. []) (codes "i") (codes "j") (codes "tok")
      (codes "Str0ng-pass") server []

run_reset_password_once_example :
    let second =
      run_reset_password Memory.resets 3000 Memory.tx
        (λ e. [])
        (codes "x")
        (codes "y")
        (codes "tok")
        (codes "0ther-Pass")
        first_reset.1.server
        first_reset.2 in
    Untouched Memory.tx
      (λ e. [])
      3000
      (codes "reset-password")
      (λ w. w.rows)
      (λ w. w.saved)
      Memory.tx-Isolates
      (at Memory.resets Memory.tx
        (λ e. [])
        3000
        (codes "tok")
        (codes "0ther-Pass")
        first_reset.1.server
        none
        none
        first_reset.1.server.db)
      (second.0, second.1)
run_reset_password_once_example =
    run_reset_password_once Memory.resets Memory.tx (λ e. []) 2000 (λ w. w.rows) (λ w. w.saved)
      Memory.tx-Isolates memory-IsInTransaction memory-Remembers (codes "tok") (codes "i")
      (codes "j") (codes "Str0ng-pass") server [] (codes "x") (codes "y") (codes "0ther-Pass") 3000
      password_reset
