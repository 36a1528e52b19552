-- ===== src/Automation/Runner.antt =====
-- guardian/automation/runner.py. The kill switch is a function that may raise; times are
-- microseconds. Log lines are left out.
use cyber_sage.Prelude.{
  ℕ, String, Bool, true, false, not, Option, none, some, ◌&&◌, if◌then◌else◌, truthy, Result, ok,
  err,
}
use cyber_sage.Prelude.Dict.{Dict, lookup}
use cyber_sage.Automation.Policy.{
  AutomationMode, approval_required, PolicyDecision, allow, deny, require_approval, only_prepare,
  AutomationRunStatus, pending, awaiting_approval, blocked, cancelled, AutomationPolicy,
  AutomationRunRequest, AutomationRun, Reason, RunError, blocked_by_policy, cancelled_for, evaluate,
  compute_run_id,
}

-- `bool(self._kill_switch_fn())`, where an exception counts as active.
unfoldable pub is_kill_switch_active : Result String Bool → Bool
is_kill_switch_active (ok active) = active
is_kill_switch_active (err message) = true

status_for : PolicyDecision → AutomationRunStatus
status_for deny = blocked
status_for only_prepare = pending
status_for require_approval = awaiting_approval
status_for allow = awaiting_approval

abbrev is_decision_to_run : PolicyDecision → Bool
is_decision_to_run require_approval = true
is_decision_to_run allow = true
is_decision_to_run _ = false

abbrev is_deny : PolicyDecision → Bool
is_deny deny = true
is_deny _ = false

abbrev is_only_prepare : PolicyDecision → Bool
is_only_prepare only_prepare = true
is_only_prepare _ = false

abbrev is_approval_required : AutomationMode → Bool
is_approval_required approval_required = true
is_approval_required _ = false

must_approve : AutomationMode → PolicyDecision → Bool
must_approve mode d =
    if is_approval_required mode
    then true
    else is_decision_to_run d && not (is_deny d) && not (is_only_prepare d)

error_for : PolicyDecision → Reason → Option RunError
error_for d reason = if is_deny d then some (blocked_by_policy reason) else none

-- `request.policy_id or self._policy.policy_id`
abbrev or_policy : Option String → String → String
or_policy none id = id
or_policy (some given) id = given

-- `existing_runs` is None or a dictionary; an empty one holds no run either way.
abbrev pub known_run {ℓ} : {A : Type ℓ} → Option (Dict A) → String → Option A
known_run none run_id = none
known_run (some runs) run_id = lookup run_id runs

abbrev pub is_cancellable : AutomationRunStatus → Bool
is_cancellable pending = true
is_cancellable awaiting_approval = true
is_cancellable _ = false

module _ {J : Type 0} where
  new_run :
      AutomationPolicy
      → AutomationRunRequest J
      → String
      → PolicyDecision × Reason
      → ℕ
      → AutomationRun J
  unfolding status_for must_approve error_for
  new_run policy request run_id (decision, reason) now = record {
    run_id = run_id;
    policy_id = some (or_policy (truthy request.policy_id) policy.policy_id);
    action_type = request.action_type;
    action_name = request.action_name;
    target = request.target;
    incident_id = request.incident_id;
    decision_id = request.decision_id;
    risk_score = request.risk_score;
    incident_severity = request.incident_severity;
    requested_by = request.requested_by;
    rationale = request.rationale;
    status = status_for decision;
    policy_decision = decision;
    requires_approval = must_approve policy.mode decision;
    approval_id = none;
    parameters = request.parameters;
    created_at = now;
    updated_at = now;
    error = error_for decision reason;
    result = none;
  }

  submit_new :
      AutomationPolicy → Result String Bool → AutomationRunRequest J → String → ℕ → AutomationRun J
  unfolding new_run is_kill_switch_active
  submit_new policy kill_switch request run_id now =
      new_run policy request run_id
        (evaluate policy request.action_type request.action_name request.risk_score
          request.incident_severity (is_kill_switch_active kill_switch))
        now

  unfoldable pub submit :
      (sha256_hex : String → String)
      → (dumps : String → String → J → String → String) → AutomationPolicy
      → Result String Bool
      → AutomationRunRequest J
      → Option (Dict (AutomationRun J))
      → ℕ
      → AutomationRun J
  unfolding submit_new
  submit sha256_hex dumps policy kill_switch request existing_runs now =
      let run_id =
        compute_run_id sha256_hex dumps request.action_type request.action_name request.target
          request.decision_id in
      elim (known_run existing_runs run_id) [
        | some run ↦ run
        | none ↦ submit_new policy kill_switch request run_id now
      ]

  unfoldable pub cancel : AutomationRun J → String → ℕ → AutomationRun J
  cancel run reason now =
      if not (is_cancellable run.status)
      then run
      else record run { status = cancelled; error = some (cancelled_for reason); updated_at = now }
