-- ===== src/Automation/Envelope/Requirements.antt =====
-- What is asked of a request by the gates of `check_gates`.
use cyber_sage.Prelude.{◌||◌, String, ◌≡◌, ◌≤◌, ◌<◌, true, false, Option, some, [], ◌∷◌, ok, truthy}
use cyber_sage.Prelude.Dict.{Dict}
use cyber_sage.Safety.KillSwitch.{agent, global, action, is_blocked}
use cyber_sage.Safety.CircuitBreaker.{CircuitBreaker, allow_action}
use cyber_sage.Safety.RateLimiter.{}
use cyber_sage.Actions.Registry.{get_action}
use cyber_sage.Approval.Tables.{}
use cyber_sage.Approval.Manager.{validate_for_execution}
use cyber_sage.Execution.Gates.{get_breaker, is_persisted_active}
use cyber_sage.Execution.State.{RegisteredAction}
use cyber_sage.Automation.V5.Rules.{Value, PolicyRuleV5, AutomationPolicyV5, EvaluationResult}
use cyber_sage.Automation.V5.Scope.{scope_matches_target}
use cyber_sage.Automation.V5.Collecting.{is_deny}
use cyber_sage.Automation.V5.Evaluation.{evaluate_policies}
use cyber_sage.Automation.V5.Candidates.{is_live}
use cyber_sage.Automation.Envelope.Grants.{
  is_empty, agent_target, Grant, allows_action, get_grant, is_over,
}
use cyber_sage.Automation.Envelope.State.{EnvelopeRequest, Setting, World}
use cyber_sage.Automation.Envelope.Checks.{persisted_for, matched_rule}
use cyber_sage.Automation.Envelope.Authority.{asks_pre_authorized, policy_runs, is_bounded}
use cyber_sage.Automation.Envelope.Gates.{evaluation_request, get_policy}
use cyber_sage.Automation.Envelope.Report.{}

-- A grant of the policy that is active, of its version, not over, and that covers the request.
pub record GrantCovers {J S : Type 0} (s : Setting J S) (request : EnvelopeRequest J)
    (policy : AutomationPolicyV5) (grant : Grant) : Type 0 where
  pub is_granted : get_grant policy.policy_id s.tables.grants ≡ some grant
  pub is_active : grant.active ≡ true
  pub same_version : grant.policy_version ≡ policy.version
  pub not_over : is_over grant.expires_at s.clocks.covered_at ≡ false
  pub action_listed : allows_action grant request.action_type request.action_name ≡ true
  pub risk_within : request.risk_score ≤ grant.max_risk_score
  pub target_within : scope_matches_target s.texts (some grant.target_scope) request.target ≡ true
  pub agent_within :
      is_empty grant.agent_scope
        || scope_matches_target s.texts {J = J}
            (some grant.agent_scope)
            (agent_target request.agent_key request.host_id)
      ≡ true
  pub runs_below :
      policy_runs policy.policy_id s.clocks.frequency_at s.tables.runs
      < grant.max_executions_per_hour

-- A bounded request is covered by a grant, and the rule that matches is pre-authorized; any other has
-- an approval that is valid for its decision, target and action type.
pub data Authority {J S : Type 0} (s : Setting J S) (request : EnvelopeRequest J) (w : World J)
    (policy : AutomationPolicyV5) (rule : Option PolicyRuleV5) : Type 0 where
  granted :
      (grant : Grant)
      → is_bounded s.texts request ≡ true
      → asks_pre_authorized rule ≡ true
      → GrantCovers s request policy grant
      → Authority s request w policy rule
  approved :
      (id : String)
      → is_bounded s.texts request ≡ false
      → truthy request.approval_id ≡ some id
      → (validate_for_execution s.same_json id request.decision_id request.target
          request.action_type s.clocks.approved_at w.database).0.0
        ≡ true
      → Authority s request w policy rule

pub record Authorized {J S : Type 0} (s : Setting J S) (request : EnvelopeRequest J) (w : World J)
    (policy : AutomationPolicyV5) (fresh : EvaluationResult) : Type 0 where
  pub is_found : get_policy request.policy_id s.tables.policies ≡ some policy
  pub is_live_policy : is_live s.clocks.active_at policy ≡ true
  pub is_expected : policy.version ≡ request.expected_policy_version
  pub is_evaluated :
      evaluate_policies s.texts s.point
        (policy ∷ [])
        (evaluation_request request)
        s.clocks.evaluated_at
        false
      ≡ ok fresh
  pub not_denied : is_deny fresh.decision ≡ false
  pub memory_off :
      (is_blocked global "global" request.agent_key
        (some request.action_type)
        w.devices.kill_switch).0.0
      ≡ false
  pub global_off : is_persisted_active global "global" s.tables.session ≡ false
  pub action_off : is_persisted_active action request.action_type s.tables.session ≡ false
  pub agent_off : persisted_for s.tables.session agent request.agent_key ≡ false
  pub breaker_allows :
      (cb : CircuitBreaker) × (get_breaker request.action_type w.devices.breakers ≡ some cb)
      × ((allow_action cb s.clocks.breaker_clock).0 ≡ true)
  pub target_valid :
      (a : RegisteredAction (Dict (Value J)) S) × (get_action s.tables.registry request.action_type
          request.action_name
        ≡ some a)
      × ((a.validate request.target request.parameters).0 ≡ true)
  pub authority : Authority s request w policy (matched_rule policy fresh)
