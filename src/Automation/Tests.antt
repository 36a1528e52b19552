-- ===== src/Automation/Tests.antt =====
-- Runs of guardian/automation on small inputs; targets are texts and the hash is the text itself.
use cyber_sage.Prelude.{String, ◌≡◌, ◌↔◌, ◌⊎◌, refl, true, false, none, some, [], ◌∷◌, ok, concat}
use cyber_sage.Automation.Policy
use cyber_sage.Automation.Policy.{
  AutomationMode, disabled, prepare_only, approval_required, PolicyDecision, allow, deny,
  require_approval, only_prepare, blocked, pending, awaiting_approval, cancelled, AutomationRule,
  AutomationPolicy, AutomationRunRequest, AutomationRun, kill_switch_active, blocked_by_policy,
  rule_matches, evaluate, compute_run_id,
}
use cyber_sage.Automation.PolicyLaws.{chosen_rule, evaluate-allow_iff}
use cyber_sage.Automation.Runner.{submit}
use cyber_sage.Automation.RunnerLaws.{submit_waits}

abbrev rule : AutomationRule
rule = record {
  rule_id = "r1";
  description = "";
  action_type = "process";
  action_name = "*";
  min_risk_score = 50;
  max_risk_score = 100;
  incident_severity = none;
  decision = allow;
  requires_approval = false;
}

abbrev policy : AutomationPolicy
policy = record {
  policy_id = "p1";
  name = "";
  description = "";
  mode = approval_required;
  rules = rule ∷ [];
  created_at = 0;
  updated_at = 0;
  enabled = true;
}

abbrev request : AutomationRunRequest String
request = record {
  action_type = "process";
  action_name = "terminate_process";
  target = "pid 7";
  incident_id = none;
  decision_id = "rd-1";
  risk_score = 80;
  incident_severity = "high";
  requested_by = "system";
  rationale = "";
  policy_id = none;
  parameters = "";
}

abbrev plain : String → String
plain s = s

abbrev dumps : String → String → String → String → String
dumps t n target d = concat (t ∷ n ∷ target ∷ d ∷ [])

evaluate-allow_iff_example :
    ((evaluate policy "process" "terminate_process" 80 "high" false).0 ≡ allow) ↔ (
      (false ≡ false)
      × (policy.enabled ≡ true)
      × (policy.mode ≡ approval_required)
      × ((r : AutomationRule) × (chosen_rule policy.rules "process" "terminate_process" 80 "high"
            ≡ some r)
          × (r.decision ≡ allow)
          × (r.requires_approval ≡ false)))
evaluate-allow_iff_example = evaluate-allow_iff policy "process" "terminate_process" 80 "high" false

evaluate_allows : (evaluate policy "process" "terminate_process" 80 "high" false).0 ≡ allow
unfolding evaluate rule_matches Policy.first_decision
evaluate_allows = refl

submit_waits_example :
    let run = submit plain dumps policy (ok false) request none 5 in
    ((run.status ≡ blocked) ⊎ (run.status ≡ pending) ⊎ (run.status ≡ awaiting_approval))
    × ((run.status ≡ blocked) ↔ (run.policy_decision ≡ deny))
    × (run.status ≡ awaiting_approval → run.requires_approval ≡ true)
    × (run.policy_decision ≡ allow → run.status ≡ awaiting_approval)
    × (run.approval_id ≡ none)
    × (run.result ≡ none)
submit_waits_example = submit_waits plain dumps policy (ok false) request none 5 refl

abbrev waiting : AutomationRun String
waiting = record {
  run_id = "run-1";
  policy_id = some "p1";
  action_type = "process";
  action_name = "terminate_process";
  target = "pid 7";
  incident_id = none;
  decision_id = "rd-1";
  risk_score = 80;
  incident_severity = "high";
  requested_by = "system";
  rationale = "";
  status = awaiting_approval;
  policy_decision = require_approval;
  requires_approval = true;
  approval_id = none;
  parameters = "";
  created_at = 0;
  updated_at = 0;
  error = none;
  result = none;
}
