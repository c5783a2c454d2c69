-- ===== src/Authorization/Tests.antt =====
-- Checks of concrete requests, and the theorems about them applied to these.
use stocka_server.Prelude.{
  ◌≡◌, refl, true, false, none, some, [], ◌∷◌, inl, if◌then◌else◌, Text, codes, text_eq, arith,
}
use stocka_server.Prelude.Int.{pos, negsuc}
use stocka_server.Shared.Outcome.{ok, err}
use stocka_server.Authorization.Resolver.{
  RbacPolicy, PolicyContext, feature_not_in_tier, check_tier_feature, check_role_permission,
  check_usage_limit, can_perform_action, can_perform_action_with_snapshot,
}
use stocka_server.Authorization.Resolver.Monotone.{IsBetter, can_perform_action_better}
use stocka_server.Authorization.Snapshot.{TierData, ActionOverride, override_of, policy_of}
use stocka_server.Authorization.Snapshot.Laws.{
  IsPlain, enabled_by_snapshot, snapshot_agrees, snapshot_override,
}

abbrev growth : Text
growth = codes "GROWTH"

-- Every role may do everything; the tier GROWTH has no limit, the others have 3 of everything.
abbrev policy : RbacPolicy
policy = record {
  role_actions = λ role action. true;
  action_tier_requirements = λ action. none;
  tier_numeric_limits = λ tier key. some (if text_eq tier growth then negsuc 0 else pos 3);
  tier_order = λ tier. some (if text_eq tier growth then 2 else 0);
  action_limit_checks = λ action. some (codes "storageCount");
}

abbrev context : PolicyContext
context = record {
  tenant_tier = codes "FREE";
  user_role = codes "OWNER";
  action = codes "STORAGE_CREATE";
  usage_counts = some (λ key. some 2);
}

growth-IsBetter : IsBetter policy growth (codes "FREE")
unfolding text_eq
growth-IsBetter = record { order = omega arith; limits = λ key. inl refl }

allowed : can_perform_action policy context ≡ ok tt
unfolding can_perform_action text_eq check_tier_feature check_role_permission check_usage_limit
allowed = refl

can_perform_action_better_example :
    can_perform_action policy (record context { tenant_tier = growth }) ≡ ok tt
can_perform_action_better_example =
    can_perform_action_better policy context growth growth-IsBetter allowed

abbrev plain_data : TierData
plain_data = record {
  module_policies = λ tier. [];
  action_overrides = λ tier. [];
  action_module = λ action. some (codes "storage");
}

plain : IsPlain plain_data (codes "FREE") (codes "STORAGE_CREATE")
unfolding override_of policy_of
plain = record { override = refl; module_open = tt }

snapshot_agrees_example :
    can_perform_action_with_snapshot policy context (enabled_by_snapshot policy plain_data context)
    ≡ can_perform_action policy context
snapshot_agrees_example = snapshot_agrees policy plain_data context plain

abbrev disabled : ActionOverride
disabled = record { action_key = codes "STORAGE_CREATE"; enabled = false }

abbrev override_data : TierData
override_data = record plain_data { action_overrides = λ tier. disabled ∷ [] }

disabled_action_refused :
    can_perform_action_with_snapshot policy context
      (enabled_by_snapshot policy override_data context)
    ≡ err (feature_not_in_tier (codes "STORAGE_CREATE") (codes "FREE") (codes "FREE"))
unfolding override_of text_eq
disabled_action_refused = snapshot_override policy override_data context disabled refl
