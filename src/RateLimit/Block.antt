-- ===== src/RateLimit/Block.antt =====
-- `evaluateBlock` of src/common/interceptors/rate-limit.interceptor.ts: how long an account is blocked.
use stocka_server.Prelude.{
  ℕ, ◌+◌, ◌*◌, ◌≤◌, ◌<◌, ◌≡◌, Option, none, some, List, [], ◌∷◌, All, leb, if◌then◌else◌, ◌⊎◌, Text,
}

pub record Threshold : Type 0 where
  pub attempts : ℕ
  pub block_minutes : ℕ

-- `UserVerificationBlockedByAuthenticationEvent`
pub record Blocked : Type 0 where
  pub user_uuid : Text
  pub blocked_until : ℕ

-- `[...thresholds].sort((a, b) => b.attempts - a.attempts)`, which is stable.
abbrev pub insert : Threshold → List Threshold → List Threshold
insert t [] = t ∷ []
insert t (u ∷ us) =
    let rest = insert t us in if leb u.attempts t.attempts then t ∷ u ∷ us else u ∷ rest

unfoldable pub sorted_thresholds : List Threshold → List Threshold
sorted_thresholds [] = []
sorted_thresholds (t ∷ ts) = insert t (sorted_thresholds ts)

-- The first threshold that is reached: the loop with its `break`.
abbrev pub first_reached : ℕ → List Threshold → Option Threshold
first_reached failed_attempts [] = none
first_reached failed_attempts (t ∷ ts) =
    let rest = first_reached failed_attempts ts in
    if leb t.attempts failed_attempts then some t else rest

-- The event for a threshold that was found; `now` is `Date.now()`.
abbrev pub block_for : ℕ → Text → Option Threshold → Option Blocked
block_for now user_uuid none = none
block_for now user_uuid (some t) =
    some (record { user_uuid = user_uuid; blocked_until = now + t.block_minutes * 60 * 1000 })

-- `evaluateBlock`: the event that is published, if any.
unfoldable pub evaluate_block : ℕ → Text → ℕ → Option (List Threshold) → Option Blocked
evaluate_block now user_uuid failed_attempts none = none
evaluate_block now user_uuid failed_attempts (some thresholds) =
    block_for now user_uuid (first_reached failed_attempts (sorted_thresholds thresholds))

abbrev Exists : (Threshold → Type 0) → List Threshold → Type 0
Exists P [] = ⊥
Exists P (t ∷ ts) = P t ⊎ Exists P ts

-- The threshold that counts: of those that are reached, one with the most attempts; none if none is
-- reached.
abbrev pub IsHighest : ℕ → List Threshold → Option Threshold → Type 0
IsHighest failed ts none = All (λ u. failed < u.attempts) ts
IsHighest failed ts (some t) =
    (t.attempts ≤ failed)
    × All (λ u. u.attempts ≤ failed → u.attempts ≤ t.attempts) ts
    × Exists (λ u. u ≡ t) ts

-- In descending order.
abbrev IsSorted : List Threshold → Type 0
IsSorted [] = Unit
IsSorted (t ∷ ts) = All (λ u. u.attempts ≤ t.attempts) ts × IsSorted ts
