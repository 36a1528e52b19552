-- ===== src/Automation/Envelope/Grants.antt =====
-- guardian/automation/preauth.py and the reading of grants in preauth_store.py. Numbers are natural,
-- as the table's columns and the validators keep them, and a time is read from the column itself.
use cyber_sage.Prelude.{
  ℕ, String, Bool, true, false, not, ◌&&◌, Option, none, some, List, [], ◌∷◌, ltb, leb,
  if◌then◌else◌, ◌==◌,
}
use cyber_sage.Prelude.Dict.{Dict}
use cyber_sage.Prelude.Sorting.{any}
use cyber_sage.Automation.Policy.{matches_text}
use cyber_sage.Automation.V5.Rules.{
  Texts, ApprovalMode, required, pre_authorized, Scope, Value, text, PolicyRuleV5,
  AutomationPolicyV5, is_expired,
}
use cyber_sage.Automation.V5.Scope.{scope_matches_target}
use cyber_sage.Automation.V5.Collecting.{is_disabled}

-- A row of `guardian_preauth_grants`.
pub record Grant : Type 0 where
  pub policy_id : String
  pub policy_version : ℕ
  pub active : Bool
  pub allowed_actions : List (String × String)
  pub agent_scope : Scope
  pub target_scope : Scope
  pub max_risk_score : ℕ
  pub max_executions_per_hour : ℕ
  pub cooldown_seconds : ℕ
  pub expires_at : Option ℕ
  pub safety_gates : List String
  pub rollback_required : Bool
  pub reason : Option String
  pub activated_by : Option String
  pub activated_at : Option ℕ
  pub revoked_by : Option String
  pub revoked_at : Option ℕ
  pub revoke_reason : Option String
  pub created_at : ℕ
  pub updated_at : ℕ

pub data GrantReason : Type 0 where
  grant_inactive grant_expired action_not_in_grant risk_above_grant_cap : GrantReason
  grant_scope_empty_fail_closed target_outside_grant_scope : GrantReason
  agent_outside_grant_scope grant_covers : GrantReason
  no_active_grant stale_grant_version stale_policy_version : GrantReason
  grant_max_frequency_exceeded grant_authorizes_request : GrantReason

abbrev pub is_pre_authorized : ApprovalMode → Bool
is_pre_authorized pre_authorized = true
is_pre_authorized required = false

-- `{"agent_key": agent_key, "host_id": host_id}`: a key with None matches nothing, as one that is
-- missing.
abbrev pub agent_target : {J : Type 0} → (agent_key host_id : Option String) → Dict (Value J)
agent_target none none = []
agent_target none (some h) = ("host_id", text h) ∷ []
agent_target (some a) none = ("agent_key", text a) ∷ []
agent_target (some a) (some h) = ("agent_key", text a) ∷ ("host_id", text h) ∷ []

-- `expires_at is None or moment >= expires_at`
abbrev pub is_over : Option ℕ → ℕ → Bool
is_over none moment = true
is_over (some expires_at) moment = leb expires_at moment

abbrev pub is_empty : Scope → Bool
is_empty [] = true
is_empty (d ∷ scope) = false

-- The action, target and agent that a grant is asked about.
pub record Asked (J : Type 0) : Type 0 where
  pub action_type : String
  pub action_name : String
  pub target : Dict (Value J)
  pub risk_score : ℕ
  pub agent_key : Option String
  pub host_id : Option String

abbrev pub allows_action : Grant → (action_type action_name : String) → Bool
allows_action grant action_type action_name =
    any (λ (a : String × String). a.0 == action_type && a.1 == action_name) grant.allowed_actions

module _ (t : Texts) {J : Type 0} where
  unfoldable pub grant_covers_request : Grant → Asked J → ℕ → Bool × GrantReason
  grant_covers_request grant asked moment =
      if not grant.active
      then (false, grant_inactive)
      else if is_over grant.expires_at moment
      then (false, grant_expired)
      else if not (allows_action grant asked.action_type asked.action_name)
      then (false, action_not_in_grant)
      else if ltb grant.max_risk_score asked.risk_score
      then (false, risk_above_grant_cap)
      else if is_empty grant.target_scope
      then (false, grant_scope_empty_fail_closed)
      else if not (scope_matches_target t (some grant.target_scope) asked.target)
      then (false, target_outside_grant_scope)
      else if not (is_empty grant.agent_scope)
          && not (
              scope_matches_target t {J = J} (some grant.agent_scope)
                (agent_target asked.agent_key asked.host_id))
      then (false, agent_outside_grant_scope)
      else (true, grant_covers)

-- The first PRE_AUTHORIZED rule for the action.
unfoldable pub find_preauth_rule :
    List PolicyRuleV5 → (action_type action_name : String) → Option PolicyRuleV5
find_preauth_rule [] action_type action_name = none
find_preauth_rule (rule ∷ rules) action_type action_name =
    let rest = find_preauth_rule rules action_type action_name in
    if not (matches_text rule.action_type action_type)
    then rest
    else if not (matches_text rule.action_name action_name)
    then rest
    else if is_pre_authorized rule.approval_mode
    then some rule
    else rest

pub data Eligibility : Type 0 where
  policy_disabled policy_mode_disabled policy_expired : Eligibility
  no_preauthorized_rule policy_preauth_eligible : Eligibility

unfoldable pub policy_supports_preauth : AutomationPolicyV5 → ℕ → Bool × Eligibility
policy_supports_preauth policy now =
    if not policy.enabled
    then (false, policy_disabled)
    else if is_disabled policy.mode
    then (false, policy_mode_disabled)
    else if is_expired policy now
    then (false, policy_expired)
    else if not (any (λ r. is_pre_authorized r.approval_mode) policy.rules)
    then (false, no_preauthorized_rule)
    else (true, policy_preauth_eligible)

unfoldable pub get_grant : String → List Grant → Option Grant
get_grant policy_id [] = none
get_grant policy_id (grant ∷ grants) =
    if grant.policy_id == policy_id then some grant else get_grant policy_id grants
