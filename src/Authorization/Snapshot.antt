-- ===== src/Authorization/Snapshot.antt =====
-- `CapabilityService` (infrastructure/services/capability.service.ts): the snapshot of a tier, from the
-- overrides of actions, the policies of modules and the requirements of tiers.
pub mod Laws
use stocka_server.Prelude.{
  ℕ, Bool, true, false, not, ◌&&◌, Option, none, some, List, [], ◌∷◌, or_else, ltb, if◌then◌else◌,
  Text, text_eq,
}
use stocka_server.Authorization.Resolver.{RbacPolicy, required_tier, order_of}

-- Without its `config`, which nothing here reads.
pub record ModulePolicy : Type 0 where
  pub module_key : Text
  pub enabled : Bool

-- Without its `config` too.
pub record ActionOverride : Type 0 where
  pub action_key : Text
  pub enabled : Bool

-- `ActionCapability.reason`
pub data Reason : Type 0 where
  explicitly_enabled explicitly_disabled : Text → Reason
  module_disabled tier_met tier_missed : Text → Text → Reason

pub record ActionCapability : Type 0 where
  pub enabled : Bool
  pub reason : Reason

-- `ITierDataProvider`, as far as a snapshot is built from it.
pub record TierData : Type 0 where
  pub module_policies : Text → List ModulePolicy
  pub action_overrides : Text → List ActionOverride
  pub action_module : Text → Option Text

-- The later of two entries, if there is one.
abbrev or_last : {A : Type 0} → Option A → Option A → Option A
or_last (some a) _ = some a
or_last none o = o

-- `Map.get` after the entries were `set` in their order: the last one of a key counts.
unfoldable pub override_of : Text → List ActionOverride → Option ActionOverride
override_of key [] = none
override_of key (o ∷ overrides) =
    or_last (override_of key overrides) (if text_eq o.action_key key then some o else none)

unfoldable pub policy_of : Text → List ModulePolicy → Option ModulePolicy
policy_of key [] = none
policy_of key (p ∷ policies) =
    or_last (policy_of key policies) (if text_eq p.module_key key then some p else none)

module _ (policy : RbacPolicy) where
  -- Priority 0 of `resolveAction`: the requirement of the tier.
  abbrev pub by_tier : Text → Text → ActionCapability
  by_tier action tier =
      if not (ltb (order_of policy tier) (order_of policy (required_tier policy action)))
      then record { enabled = true; reason = tier_met tier (required_tier policy action) }
      else record { enabled = false; reason = tier_missed (required_tier policy action) tier }

  -- Priority 1: a module that is disabled.
  abbrev pub by_module : Text → Text → Text → Option ModulePolicy → ActionCapability
  by_module action tier key none = by_tier action tier
  by_module action tier key (some p) =
      if not p.enabled
      then record { enabled = false; reason = module_disabled key tier }
      else by_tier action tier

  -- `if (moduleKey)`: the empty text is no key.
  abbrev pub by_module_key : Text → Text → List ModulePolicy → Option Text → ActionCapability
  by_module_key action tier policies none = by_tier action tier
  by_module_key action tier policies (some []) = by_tier action tier
  by_module_key action tier policies (some (c ∷ key)) =
      by_module action tier (c ∷ key) (policy_of (c ∷ key) policies)

  -- Priority 3: an override of the action.
  abbrev pub by_override : Text → TierData → Text → Option ActionOverride → ActionCapability
  by_override action tier_data tier none =
      by_module_key action tier (tier_data.module_policies tier) (tier_data.action_module action)
  by_override action tier_data tier (some o) = record {
    enabled = o.enabled;
    reason = if o.enabled then explicitly_enabled tier else explicitly_disabled tier;
  }

  unfoldable pub resolve_action : TierData → Text → Text → ActionCapability
  resolve_action tier_data tier action =
      by_override action tier_data tier (override_of action (tier_data.action_overrides tier))

  -- `buildSnapshotForTenant`, as the function from actions to their capabilities.
  unfoldable pub build_snapshot_for_tenant : TierData → Text → Text → ActionCapability
  unfolding resolve_action
  build_snapshot_for_tenant tier_data tier action = resolve_action tier_data tier action
