-- ===== src/Automation/Envelope/Activated.antt =====
-- The table of grants after `activate_grant`.
use cyber_sage.Prelude.{ℕ, String, ◌≡◌, ◌≢◌, true, Option, some, List, All}
use cyber_sage.Prelude.Dict.{Dict}
use cyber_sage.Automation.Policy.{}
use cyber_sage.Automation.V5.Rules.{Texts, PolicyRuleV5, AutomationPolicyV5}
use cyber_sage.Automation.Envelope.Grants.{
  Grant, find_preauth_rule, get_grant, policy_supports_preauth, is_pre_authorized,
}
use cyber_sage.Automation.Envelope.Gates.{get_policy}
use cyber_sage.Automation.Envelope.Granting.{GrantPayload, Bounds, grant_of}
use cyber_sage.Automation.Envelope.Granted.{IsReadFrom, WithinLimits}

-- The policy has a pre-authorized rule for the action.
abbrev pub HasRule : AutomationPolicyV5 → String × String → Type 0
HasRule policy action =
    (rule : PolicyRuleV5) × (find_preauth_rule policy.rules action.0 action.1 ≡ some rule)
    × (is_pre_authorized rule.approval_mode ≡ true)

-- What an activation leaves.
pub record Activates {A : Type 0} (registry : Dict A) (t : Texts) (from_iso : String → Option ℕ)
    (point validated_at eligible_at now : ℕ) (activated_by : String) (payload : GrantPayload)
    (policies : List AutomationPolicyV5) (grants after : List Grant) : Type 0 where
  pub bounds : Bounds
  pub policy : AutomationPolicyV5
  pub created_at : ℕ
  pub policy_found : get_policy payload.policy_id policies ≡ some policy
  pub policy_eligible : (policy_supports_preauth policy eligible_at).0 ≡ true
  pub read_from : IsReadFrom t from_iso payload bounds
  pub within_limits : WithinLimits registry point validated_at bounds
  pub have_rules : All (HasRule policy) bounds.allowed_actions
  pub read_back :
      get_grant payload.policy_id after ≡ some (grant_of created_at now activated_by policy bounds)
  pub others_kept :
      (id : String) → payload.policy_id ≢ id → get_grant id after ≡ get_grant id grants
