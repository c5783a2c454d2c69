-- ===== src/Authorization/Resolver/Monotone.antt =====
-- A better tier takes nothing away.
use stocka_server.Prelude.{
  ℕ, ◌≤◌, ◌≡◌, refl, true, false, Option, none, some, [], ◌∷◌, or_else, ◌⊎◌, arith, Text,
}
use stocka_server.Prelude.Int.{ℤ, pos, negsuc, eq_ℤ, ltb_ℤ}
use stocka_server.Shared.Outcome.{ok, and_then-eq-ok}
use stocka_server.Authorization.Resolver.{
  RbacPolicy, PolicyContext, order_of, can_perform_action, check_tier_feature,
  check_role_permission, check_usage, check_usage_limit, check_limit_key, check_current,
  check_count,
}

-- A limit that is at least as generous: none at all, or one that is not smaller.
abbrev pub AtLeast : ℤ → ℤ → Type 0
AtLeast better limit =
    (eq_ℤ better (negsuc 0) ≡ true)
    ⊎ ((eq_ℤ limit (negsuc 0) ≡ false) × (ltb_ℤ better limit ≡ false))

-- A tier that comes after another and has limits that are at least as generous.
pub record IsBetter (policy : RbacPolicy) (better tier : Text) : Type 0 where
  pub order : order_of policy tier ≤ order_of policy better
  pub limits :
      (key : Text)
      → AtLeast
          (or_else (policy.tier_numeric_limits better key) (pos 0))
          (or_else (policy.tier_numeric_limits tier key) (pos 0))

module _ (policy : RbacPolicy) where
  check_count_better :
      (key tier better : Text) (limit limit' : ℤ) (current : ℕ)
      → AtLeast limit' limit
      → check_count policy key tier limit current ≡ ok tt
      → check_count policy key better limit' current ≡ ok tt
  check_count_better key tier better (pos m) (pos n) current h k = ground arith
  check_count_better key tier better (pos m) (negsuc n) current h k = ground arith
  check_count_better key tier better (negsuc m) (pos n) current h k = ground arith
  check_count_better key tier better (negsuc m) (negsuc n) current h k = ground arith

  module _ (context : PolicyContext) (better : Text)
      (b : IsBetter policy better context.tenant_tier) where
    -- The same request of a tenant on the better tier.
    abbrev upgraded : PolicyContext
    upgraded = record context { tenant_tier = better }

    check_current_better :
        (key : Text) (current : Option ℕ)
        → check_current policy context key current ≡ ok tt
        → check_current policy upgraded key current ≡ ok tt
    check_current_better key none h = refl
    check_current_better key (some current) h =
        check_count_better key context.tenant_tier better
          (or_else (policy.tier_numeric_limits context.tenant_tier key) (pos 0))
          (or_else (policy.tier_numeric_limits better key) (pos 0)) current (b.limits key) h

    check_limit_key_better :
        (usage_counts : Text → Option ℕ) (key : Option Text)
        → check_limit_key policy context usage_counts key ≡ ok tt
        → check_limit_key policy upgraded usage_counts key ≡ ok tt
    check_limit_key_better usage_counts none h = refl
    check_limit_key_better usage_counts (some []) h = refl
    check_limit_key_better usage_counts (some (c ∷ key)) h =
        check_current_better (c ∷ key) (usage_counts (c ∷ key)) h

    check_usage_better :
        (usage_counts : Option (Text → Option ℕ))
        → check_usage policy context usage_counts ≡ ok tt
        → check_usage policy upgraded usage_counts ≡ ok tt
    unfolding check_usage_limit
    check_usage_better none h = refl
    check_usage_better (some usage_counts) h =
        check_limit_key_better usage_counts (policy.action_limit_checks context.action) h

    check_tier_better :
        check_tier_feature policy context ≡ ok tt → check_tier_feature policy upgraded ≡ ok tt
    unfolding check_tier_feature
    check_tier_better h = ground (arith, b.order)

    -- What a member may do on a tier, the member may do on a better one: the tier comes later in the
    -- order and its limits are at least as generous, and the role, the action and the counts are
    -- the same.
    pub can_perform_action_better :
        can_perform_action policy context ≡ ok tt → can_perform_action policy upgraded ≡ ok tt
    unfolding can_perform_action check_role_permission
    can_perform_action_better h =
        let (_, tier, h1) = and_then-eq-ok (check_tier_feature policy context) _ h in
        let (_, role, h2) = and_then-eq-ok (check_role_permission policy context) _ h1 in
        rw (check_tier_better tier, role) (check_usage_better context.usage_counts h2)
