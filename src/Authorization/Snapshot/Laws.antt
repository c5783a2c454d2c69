-- ===== src/Authorization/Snapshot/Laws.antt =====
-- The snapshot of a tier against the live check.
use stocka_server.Prelude.{
  ◌≡◌, refl, ap, ◌∙◌, [], ◌∷◌, Bool, true, not, Option, none, some, Bool-cases, inl, inr,
  if◌then◌else◌, ltb, Text, List,
}
use stocka_server.Shared.Outcome.{err, and_then}
use stocka_server.Authorization.Resolver.{
  RbacPolicy, PolicyContext, feature_not_in_tier, Verdict, required_tier, order_of,
  can_perform_action, can_perform_action_with_snapshot, check_tier_feature, check_role_permission,
  check_usage,
}
use stocka_server.Authorization.Snapshot.{
  TierData, ActionOverride, ModulePolicy, override_of, policy_of, build_snapshot_for_tenant,
  by_tier, by_module, by_module_key, by_override,
}

abbrev pub AllowsModule : Option ModulePolicy → Type 0
AllowsModule none = Unit
AllowsModule (some p) = p.enabled ≡ true

abbrev pub IsOpen : List ModulePolicy → Option Text → Type 0
IsOpen policies none = Unit
IsOpen policies (some key) = AllowsModule (policy_of key policies)

-- An action that no override and no disabled module decides for the tier.
pub record IsPlain (tier_data : TierData) (tier action : Text) : Type 0 where
  pub override : override_of action (tier_data.action_overrides tier) ≡ none
  pub module_open : IsOpen (tier_data.module_policies tier) (tier_data.action_module action)

module _ (policy : RbacPolicy) (action tier : Text) where
  by_module_open :
      (key : Text) (p : Option ModulePolicy)
      → AllowsModule p
      → by_module policy action tier key p ≡ by_tier policy action tier
  by_module_open key none h = refl
  by_module_open key (some p) h = rw h refl

  by_module_key_open :
      (policies : List ModulePolicy) (key : Option Text)
      → IsOpen policies key
      → by_module_key policy action tier policies key ≡ by_tier policy action tier
  by_module_key_open policies none h = refl
  by_module_key_open policies (some []) h = refl
  by_module_key_open policies (some (c ∷ key)) h =
      by_module_open (c ∷ key) (policy_of (c ∷ key) policies) h

  -- Only the tier decides on such an action.
  build_snapshot_plain :
      (tier_data : TierData)
      → IsPlain tier_data tier action
      → build_snapshot_for_tenant policy tier_data tier action ≡ by_tier policy action tier
  unfolding build_snapshot_for_tenant
  build_snapshot_plain tier_data plain =
      ap (by_override policy action tier_data tier) plain.override
      ∙ by_module_key_open (tier_data.module_policies tier) (tier_data.action_module action)
          plain.module_open

module _ (policy : RbacPolicy) (tier_data : TierData) (context : PolicyContext) where
  abbrev pub enabled_by_snapshot : Text → Bool
  enabled_by_snapshot action =
      (build_snapshot_for_tenant policy tier_data context.tenant_tier action).enabled

  -- The verdict, once it is known whether the tier has the action.
  abbrev verdict_of : Bool → Verdict
  verdict_of enabled =
      if not enabled
      then err (
          feature_not_in_tier context.action context.tenant_tier
            (required_tier policy context.action))
      else and_then (check_role_permission policy context)
          (λ _. check_usage policy context context.usage_counts)

  -- For an action that no override and no disabled module decides, the check against the snapshot of
  -- the tenant's tier gives the same verdict as the live check, errors included.
  pub snapshot_agrees :
      IsPlain tier_data context.tenant_tier context.action
      → can_perform_action_with_snapshot policy context enabled_by_snapshot
        ≡ can_perform_action policy context
  unfolding can_perform_action can_perform_action_with_snapshot check_tier_feature
  snapshot_agrees plain =
      ap (λ capability. verdict_of capability.enabled)
        (build_snapshot_plain policy context.action context.tenant_tier tier_data plain)
      ∙ elim (Bool-cases (
          ltb (order_of policy context.tenant_tier)
            (order_of policy (required_tier policy context.action)))) [
              | inl e ↦ rw e refl
              | inr e ↦ rw e refl
            ]

  -- An override decides on the tier's part of the check alone: if it disables the action, the action
  -- is refused, and if it enables it, only the role and the usage count, whatever the tier.
  pub snapshot_override :
      (o : ActionOverride)
      → override_of context.action (tier_data.action_overrides context.tenant_tier) ≡ some o
      → can_perform_action_with_snapshot policy context enabled_by_snapshot ≡ (
          if o.enabled
          then and_then
              (check_role_permission policy context)
              (λ _. check_usage policy context context.usage_counts)
          else err (
              feature_not_in_tier context.action context.tenant_tier
                (required_tier policy context.action)))
  unfolding can_perform_action_with_snapshot build_snapshot_for_tenant
  snapshot_override o h =
      ap
        (λ o.
          verdict_of (by_override policy context.action tier_data context.tenant_tier o).enabled)
        h
      ∙ elim (Bool-cases o.enabled) [ inl e ↦ rw e refl | inr e ↦ rw e refl ]
