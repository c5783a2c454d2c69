-- ===== src/Authentication/VerificationToken/Cooldown.antt =====
-- When a verification code may be sent again, and what a client is told to wait.
use stocka_server.Prelude.{
  ℕ, ◌+◌, ◌*◌, ◌≤◌, ◌<◌, ◌≡◌, ◌↔◌, refl, Bool, true, false, Option, none, some, IfSome, ltb, leb,
  if◌then◌else◌, arith,
}
use stocka_server.Authentication.VerificationToken.{
  Token, max_resends_per_hour, current_cooldown_seconds, waited, can_resend, seconds_left,
  seconds_until_can_resend,
}

-- The last code was not sent in the future.
abbrev pub IsPast : ℕ → Token → Type 0
IsPast now t = IfSome (λ last. last ≤ now) t.last_resent_at

can_resend_at :
    (now count cooldown : ℕ) (last : Option ℕ)
    → IfSome (λ last. last ≤ now) last
    → ((if leb 5 count then false else if ltb 0 cooldown then waited now cooldown last else true)
        ≡ true)
      ↔ ((count < 5) × (seconds_left now cooldown last ≡ 0))
can_resend_at now count cooldown none h = ground arith
can_resend_at now count cooldown (some last) h = ground arith

-- Where the last code was not sent in the future, a code may be sent again exactly when fewer than five
-- were and the client has no second left to wait.
pub can_resend_iff :
    (now : ℕ) (t : Token)
    → IsPast now t
    → (can_resend now t ≡ true)
      ↔ ((t.resend_count < max_resends_per_hour) × (seconds_until_can_resend now t ≡ 0))
unfolding can_resend seconds_until_can_resend
can_resend_iff now t h =
    can_resend_at now t.resend_count (current_cooldown_seconds t) t.last_resent_at h

wait_at :
    (now later cooldown : ℕ) (last : Option ℕ)
    → IfSome (λ last. last ≤ now) last
    → now + 1000 * seconds_left now cooldown last ≤ later
    → seconds_left later cooldown last ≡ 0
wait_at now later cooldown none h k = refl
wait_at now later cooldown (some last) h k = ground arith

too_early_at :
    (now later cooldown : ℕ) (last : Option ℕ)
    → IfSome (λ last. last ≤ now) last
    → now ≤ later
    → later + 1000 ≤ now + 1000 * seconds_left now cooldown last
    → 0 < seconds_left later cooldown last
too_early_at now later cooldown none h k e = absurd (omega (arith, k, e))
too_early_at now later cooldown (some last) h k e = ground arith

past_later :
    (now later : ℕ) (last : Option ℕ)
    → now ≤ later
    → IfSome (λ last. last ≤ now) last
    → IfSome (λ last. last ≤ later) last
past_later now later none k h = tt
past_later now later (some last) k h = omega arith

-- A client that waits the seconds it is told to can have a new code, if fewer than five were sent
-- and the last one not in the future.
pub can_resend-after_wait :
    (now later : ℕ) (t : Token)
    → IsPast now t
    → t.resend_count < max_resends_per_hour
    → now + 1000 * seconds_until_can_resend now t ≤ later
    → can_resend later t ≡ true
unfolding seconds_until_can_resend
can_resend-after_wait now later t h c w =
    (can_resend_iff later t (past_later now later t.last_resent_at (omega (arith, w)) h)).1
      (c, wait_at now later (current_cooldown_seconds t) t.last_resent_at h w)

refused : (b : Bool) → (b ≡ true → ⊥) → b ≡ false
refused true h = absurd (h refl)
refused false h = refl

-- A second before that time it cannot.
pub can_resend-too_early :
    (now later : ℕ) (t : Token)
    → IsPast now t
    → now ≤ later
    → later + 1000 ≤ now + 1000 * seconds_until_can_resend now t
    → can_resend later t ≡ false
unfolding seconds_until_can_resend
can_resend-too_early now later t h k w = refused (can_resend later t) (λ e.
    let past = past_later now later t.last_resent_at k h in
    let (_, zero_left) = (can_resend_iff later t past).0 e in
    absurd (
      omega (
        arith,
        zero_left,
        too_early_at now later (current_cooldown_seconds t) t.last_resent_at h k w,
      )))
