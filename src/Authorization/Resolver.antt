-- ===== src/Authorization/Resolver.antt =====
-- `CapabilityResolver` (domain/services/capability.resolver.ts) over the tables of `IRbacPolicyPort`. A
-- table is a function to `Option`, where `none` is a missing key.
pub mod Monotone
use stocka_server.Prelude.{
  ℕ, Bool, true, false, not, Option, none, some, [], ◌∷◌, or_else, ltb, if◌then◌else◌, List, String,
  Text, codes,
}
use stocka_server.Prelude.Int.{ℤ, pos, negsuc, eq_ℤ, ltb_ℤ}
use stocka_server.Shared.Outcome.{Outcome, ok, err, and_then}

-- `IRbacPolicyPort`, as far as the resolver asks it.
pub record RbacPolicy : Type 0 where
  pub role_actions : Text → Text → Bool
  pub action_tier_requirements : Text → Option Text
  pub tier_numeric_limits : Text → Text → Option ℤ
  pub tier_order : Text → Option ℕ
  pub action_limit_checks : Text → Option Text

-- `PolicyContext`; `usage_counts` is the partial record of the counts.
pub record PolicyContext : Type 0 where
  pub tenant_tier : Text
  pub user_role : Text
  pub action : Text
  pub usage_counts : Option (Text → Option ℕ)

pub data PolicyError : Type 0 where
  feature_not_in_tier : Text → Text → Text → PolicyError
  action_not_allowed : Text → Text → PolicyError
  tier_limit_reached : Text → Text → ℤ → ℕ → PolicyError

abbrev pub Verdict : Type 0
Verdict = Outcome PolicyError (Unit {0})

module _ (policy : RbacPolicy) where
  -- `tierRequirements[action] ?? 'FREE'`
  abbrev pub required_tier : Text → Text
  required_tier action = or_else (policy.action_tier_requirements action) (codes "FREE")

  -- `tierOrder[tier] ?? 0`
  abbrev pub order_of : Text → ℕ
  order_of tier = or_else (policy.tier_order tier) 0

  unfoldable pub check_tier_feature : PolicyContext → Verdict
  check_tier_feature context =
      if ltb (order_of context.tenant_tier) (order_of (required_tier context.action))
      then err
          (feature_not_in_tier context.action context.tenant_tier (required_tier context.action))
      else ok tt

  unfoldable pub check_role_permission : PolicyContext → Verdict
  check_role_permission context =
      if not (policy.role_actions context.user_role context.action)
      then err (action_not_allowed context.action context.user_role)
      else ok tt

  -- `current` against `tierLimits[limitKey] ?? 0`, where -1 is no limit.
  abbrev pub check_count : Text → Text → ℤ → ℕ → Verdict
  check_count key tier limit current =
      if eq_ℤ limit (negsuc 0)
      then ok tt
      else if not (ltb_ℤ (pos current) limit)
      then err (tier_limit_reached key tier limit current)
      else ok tt

  -- `if (current === undefined) return ok(undefined)`
  abbrev pub check_current : PolicyContext → Text → Option ℕ → Verdict
  check_current context key none = ok tt
  check_current context key (some current) =
      check_count key context.tenant_tier
        (or_else (policy.tier_numeric_limits context.tenant_tier key) (pos 0)) current

  abbrev pub check_key : PolicyContext → (Text → Option ℕ) → Text → Verdict
  check_key context usage_counts key = check_current context key (usage_counts key)

  -- `if (!limitKey) return ok(undefined)`: the empty text is no key either.
  abbrev pub check_limit_key : PolicyContext → (Text → Option ℕ) → Option Text → Verdict
  check_limit_key context usage_counts none = ok tt
  check_limit_key context usage_counts (some []) = ok tt
  check_limit_key context usage_counts (some (c ∷ key)) = check_key context usage_counts (c ∷ key)

  unfoldable pub check_usage_limit : PolicyContext → (Text → Option ℕ) → Verdict
  check_usage_limit context usage_counts =
      check_limit_key context usage_counts (policy.action_limit_checks context.action)

  -- `if (context.usageCounts)`
  abbrev pub check_usage : PolicyContext → Option (Text → Option ℕ) → Verdict
  check_usage context none = ok tt
  check_usage context (some usage_counts) = check_usage_limit context usage_counts

  unfoldable pub can_perform_action : PolicyContext → Verdict
  can_perform_action context =
      and_then (check_tier_feature context)
        λ _. and_then (check_role_permission context) λ _. check_usage context context.usage_counts

  -- `canPerformActionWithSnapshot`, where `enabled` is `snapshot[action].enabled`.
  unfoldable pub can_perform_action_with_snapshot : PolicyContext → (Text → Bool) → Verdict
  can_perform_action_with_snapshot context enabled =
      if not (enabled context.action)
      then err
          (feature_not_in_tier context.action context.tenant_tier (required_tier context.action))
      else and_then (check_role_permission context) λ _. check_usage context context.usage_counts
