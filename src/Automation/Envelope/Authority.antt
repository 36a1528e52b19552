-- ===== src/Automation/Envelope/Authority.antt =====
-- The gates of `check_gates` in guardian/automation/envelope.py that ask for authority: target,
-- policy, grant and approval; with `check_grant_for_request` of guardian/automation/preauth_store.py.
use cyber_sage.Prelude.{
  ℕ, ◌+◌, ◌*◌, String, Bool, true, false, not, ◌&&◌, Option, none, some, List, leb, nat_eq,
  if◌then◌else◌, ◌==◌, count_if, truthy,
}
use cyber_sage.Prelude.Dict.{Dict}
use cyber_sage.Actions.Registry.{}
use cyber_sage.Approval.Tables.{Database}
use cyber_sage.Approval.Manager.{validate_for_execution}
use cyber_sage.Execution.State.{RegisteredAction}
use cyber_sage.Automation.V5.Rules.{
  Texts, Value, PolicyRuleV5, AutomationPolicyV5, EvaluationResult,
}
use cyber_sage.Automation.V5.Collecting.{is_deny}
use cyber_sage.Automation.Envelope.Grants.{
  Grant, GrantReason, no_active_grant, stale_grant_version, grant_max_frequency_exceeded,
  grant_authorizes_request, Asked, is_pre_authorized, grant_covers_request, get_grant,
}
use cyber_sage.Automation.Envelope.Grants
use cyber_sage.Automation.Envelope.State
use cyber_sage.Automation.Envelope.State.{
  is_blocked_status, GateReason, EnvelopeRequest, RunRow, mode_of,
}
use cyber_sage.Automation.Envelope.Checks.{Verdict}

abbrev pub asks_pre_authorized : Option PolicyRuleV5 → Bool
asks_pre_authorized none = false
asks_pre_authorized (some rule) = is_pre_authorized rule.approval_mode

unfoldable pub authorization_gate : EvaluationResult → Option PolicyRuleV5 → Verdict
authorization_gate fresh rule =
    if is_deny fresh.decision
    then (false, State.deny_overrides_approval)
    else if asks_pre_authorized rule
    then (true, State.authorized_pre_authorized_rule_noted)
    else (true, State.authorized)

-- The runs of the policy in the last hour that were not blocked.
unfoldable pub policy_runs : String → ℕ → List RunRow → ℕ
policy_runs policy_id now runs =
    count_if
      (λ r.
        r.policy_id == policy_id
        && not (is_blocked_status r.status)
        && leb now (r.created_at + 3600 * 1000000))
      runs

unfoldable pub preauth_gate : (bounded : Bool) → Option PolicyRuleV5 → Bool × GrantReason → Verdict
preauth_gate false rule verdict = (true, State.manual_path_preauth_not_applicable)
preauth_gate true rule (authorized, reason) =
    if not (asks_pre_authorized rule)
    then (false, State.no_preauthorized_rule)
    else if not authorized
    then (false, State.grant_refuses reason)
    else (true, State.grant_authorizes)

module _ {J : Type 0} where
  unfoldable pub target_gate :
      {S : Type 0} → Option (RegisteredAction (Dict (Value J)) S) → EnvelopeRequest J → Verdict
  target_gate none request = (false, State.action_not_registered)
  target_gate (some registered) request =
      if not (registered.validate request.target request.parameters).0
      then (false, State.target_invalid)
      else (true, State.target_valid)

  abbrev pub asked_of : EnvelopeRequest J → Asked J
  asked_of request = record {
    action_type = request.action_type;
    action_name = request.action_name;
    target = request.target;
    risk_score = request.risk_score;
    agent_key = request.agent_key;
    host_id = request.host_id;
  }

  -- Past the reading of the grant.
  unfoldable pub grant_verdict :
      Texts
      → Option Grant
      → AutomationPolicyV5
      → EnvelopeRequest J
      → (covered_at frequency_at : ℕ) → List RunRow
      → Bool × GrantReason
  grant_verdict t none policy request covered_at frequency_at runs = (false, no_active_grant)
  grant_verdict t (some grant) policy request covered_at frequency_at runs =
      let (covered, reason) = grant_covers_request t grant (asked_of request) covered_at in
      if not grant.active
      then (false, no_active_grant)
      else if not (nat_eq grant.policy_version policy.version)
      then (false, stale_grant_version)
      else if not (nat_eq request.expected_policy_version policy.version)
      then (false, Grants.stale_policy_version)
      else if not covered
      then (false, reason)
      else if leb grant.max_executions_per_hour (policy_runs policy.policy_id frequency_at runs)
      then (false, grant_max_frequency_exceeded)
      else (true, grant_authorizes_request)

  unfoldable pub check_grant_for_request :
      Texts
      → List Grant
      → AutomationPolicyV5
      → EnvelopeRequest J
      → (covered_at frequency_at : ℕ) → List RunRow
      → Bool × GrantReason
  check_grant_for_request t grants policy =
      grant_verdict t (get_grant policy.policy_id grants) policy

  abbrev pub is_bounded : Texts → EnvelopeRequest J → Bool
  is_bounded t request = mode_of t request == "preauthorized_bounded"

  unfoldable pub approval_gate :
      (same_json : Dict (Value J) → Dict (Value J) → Bool)
      → (bounded : Bool) → EnvelopeRequest J
      → ℕ
      → Database (Dict (Value J))
      → Verdict × Database (Dict (Value J))
  approval_gate same_json true request now db = ((true, State.approval_not_required), db)
  approval_gate same_json false request now db = elim (truthy request.approval_id) [
    | none ↦ ((false, State.approval_missing), db)
    | some id ↦
        let ((valid, message), db') =
          validate_for_execution same_json id request.decision_id request.target request.action_type
            now db in
        (
          if valid then (true, State.approval_valid) else (false, State.approval_invalid message),
          db',
        )
  ]
