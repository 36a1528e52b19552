-- ===== src/Automation/V5/Evaluation.antt =====
-- `evaluate_policies` of guardian/automation/policy_v5.py.
use Prim.Native.String.{slice}
use cyber_sage.Prelude.{
  ℕ, ◌+◌, ◌-◌, String, Bool, true, false, ◌||◌, none, some, List, [], ◌∷◌, if◌then◌else◌, length,
  concat, Result, ok, ◌>>◌,
}
use cyber_sage.Prelude.TextOrder.{}
use cyber_sage.Prelude.Sorting.{sort_by}
use cyber_sage.Automation.Policy.{
  AutomationMode, approval_required, PolicyDecision, deny, require_approval, only_prepare,
  guarded_decision,
}
use cyber_sage.Automation.V5.Rules.{
  Texts, ApprovalMode, required, pre_authorized, AutomationPolicyV5, EvaluationRequest,
  EvaluationResult, Explanation, blocked_by_switch, no_policy_matched, blocked_by_rule, would,
}
use cyber_sage.Automation.V5.Validation.{PolicyValidationError, validate_request}
use cyber_sage.Automation.V5.Scope.{}
use cyber_sage.Automation.V5.Precedence.{by_text, by_policy_id}
use cyber_sage.Automation.V5.Collecting.{
  Candidate, by_key, Buckets, is_prepare_only, add_policies, no_buckets,
}

abbrev pub safety_checks_slice1 : List String
safety_checks_slice1 =
    "kill_switch" ∷ "circuit_breaker" ∷ "rate_limiter" ∷ "target_validation"
    ∷ "approval_verification" ∷ "audit_record" ∷ "independent_verification"
    ∷ "rollback_if_supported" ∷ []

abbrev simulation_only : String
simulation_only = "slice1_simulation_only: autonomous execution is not enabled"

-- The result where no policy takes part, and where none matches.
unfoldable pub without_rule :
    PolicyDecision → (reason blocked_reason : String) → ℕ → Explanation → EvaluationResult
without_rule decision reason blocked_reason evaluated explanation = record {
  decision = decision;
  reason = reason;
  matched_policy_id = none;
  matched_policy_version = none;
  matched_rule_id = none;
  approval_mode = required;
  would_require_approval = true;
  would_execute = false;
  blocked_reason = some blocked_reason;
  safety_checks = safety_checks_slice1;
  evaluated_policies = evaluated;
  candidate_rules = 0;
  scope_specificity = 0;
  explanation = explanation;
}

-- The result where `c` is the first of the denying candidates.
unfoldable pub denied_by : Candidate → (evaluated total : ℕ) → EvaluationResult
denied_by c evaluated total = record {
  decision = deny;
  reason = concat ("rule:" ∷ c.rule.rule_id ∷ []);
  matched_policy_id = some c.policy.policy_id;
  matched_policy_version = some c.policy.version;
  matched_rule_id = some c.rule.rule_id;
  approval_mode = c.rule.approval_mode;
  would_require_approval = true;
  would_execute = false;
  blocked_reason =
      some (concat ("deny rule " ∷ c.rule.rule_id ∷ " in policy " ∷ c.policy.policy_id ∷ []));
  safety_checks = safety_checks_slice1;
  evaluated_policies = evaluated;
  candidate_rules = total;
  scope_specificity = c.specificity;
  explanation = blocked_by_rule c.rule.rule_id c.policy.policy_id c.policy.version (total - 1);
}

abbrev pub is_approval_mode : AutomationMode → Bool
is_approval_mode approval_required = true
is_approval_mode _ = false

abbrev pub is_required : ApprovalMode → Bool
is_required required = true
is_required pre_authorized = false

unfoldable pub asks_approval : Candidate → Bool
asks_approval c =
    is_approval_mode c.policy.mode || c.rule.requires_approval || is_required c.rule.approval_mode

-- The result where `c` is the first of the other candidates and nothing denies.
unfoldable pub allowed_by : Candidate → (evaluated total : ℕ) → EvaluationResult
allowed_by c evaluated total = record {
  decision =
      (if is_prepare_only c.policy.mode
        then only_prepare
        else guarded_decision c.rule.requires_approval c.rule.decision);
  reason = concat ("rule:" ∷ c.rule.rule_id ∷ []);
  matched_policy_id = some c.policy.policy_id;
  matched_policy_version = some c.policy.version;
  matched_rule_id = some c.rule.rule_id;
  approval_mode = c.rule.approval_mode;
  would_require_approval = asks_approval c;
  would_execute = false;
  blocked_reason = some simulation_only;
  safety_checks = safety_checks_slice1;
  evaluated_policies = evaluated;
  candidate_rules = total;
  scope_specificity = c.specificity;
  explanation =
      would (asks_approval c) c.rule.rule_id c.policy.policy_id c.policy.version c.specificity;
}

-- `denies.sort(...)` or `allows.sort(...)`, and its first candidate
unfoldable pub conclude :
    (denies allows : List Candidate) → (evaluated total : ℕ) → EvaluationResult
conclude (c ∷ _) allows evaluated total = denied_by c evaluated total
conclude [] (c ∷ _) evaluated total = allowed_by c evaluated total
conclude [] [] evaluated total =
    without_rule require_approval "default_no_matching_policy" simulation_only evaluated
      no_policy_matched

abbrev pub settle : Buckets → EvaluationResult
settle b =
    conclude (sort_by by_key b.denies) (sort_by by_key b.allows) b.evaluated
      (length b.denies + length b.allows)

-- What is decided of a valid request.
unfoldable pub decide_policies :
    Texts
    → {J : Type 0} → List AutomationPolicyV5
    → EvaluationRequest J
    → (moment : ℕ) (kill_switch_active : Bool) → EvaluationResult
decide_policies t policies request moment kill_switch_active =
    if kill_switch_active
    then without_rule deny "kill_switch_active"
        "kill_switch_active: global kill switch wins over policy authorization" (length policies)
        blocked_by_switch
    else settle (add_policies t request moment (sort_by by_policy_id policies) no_buckets)

unfoldable pub evaluate_policies :
    Texts
    → {J : Type 0} → (point : ℕ) → List AutomationPolicyV5
    → EvaluationRequest J
    → (moment : ℕ) (kill_switch_active : Bool) → Result PolicyValidationError EvaluationResult
evaluate_policies t point policies request moment kill_switch_active = do
  validate_request point request
  ok (decide_policies t policies request moment kill_switch_active)

-- `simulate` only passes its arguments on.
unfoldable pub simulate :
    Texts
    → {J : Type 0} → (point : ℕ) → List AutomationPolicyV5
    → EvaluationRequest J
    → (moment : ℕ) (kill_switch_active : Bool) → Result PolicyValidationError EvaluationResult
simulate t point policies request moment kill_switch_active =
    evaluate_policies t point policies request moment kill_switch_active

-- `sha256` and the canonical JSON text of the request, its event identifiers sorted, are parameters.
unfoldable pub compute_evaluation_id :
    {J : Type 0}
    → (sha256_hex : String → String) (dumps : EvaluationRequest J → String) → EvaluationRequest J
    → String
compute_evaluation_id sha256_hex dumps request =
    let canonical = record request { event_ids = sort_by by_text request.event_ids } in
    concat ("evl-" ∷ slice (sha256_hex (dumps canonical)) 0 32 ∷ [])
