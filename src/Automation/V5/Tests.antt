-- ===== src/Automation/V5/Tests.antt =====
-- Runs of guardian/automation/policy_v5.py on two policies: a rule that denies on one host, and a
-- pre-authorized rule. Letter case is kept, and the only addresses are small numbers.
use cyber_sage.Prelude.{
  ℕ, String, ◌≡◌, ◌≤◌, ◌||◌, ◌&&◌, refl, true, false, none, some, List, [], ◌∷◌, leb, nat_eq,
  if◌then◌else◌, ◌==◌, ok, length, arith, eq_iff, has_length_within, first_chars, has_dots,
}
use mathlib.Core.List.{Permᴰ}
use cyber_sage.Prelude.Dict.{lookup, insert}
use cyber_sage.Prelude.Sorting.{any, sort_by}
use cyber_sage.Automation.Policy.{prepare_only, approval_required, allow, deny, only_prepare}
use cyber_sage.Automation.V5.Rules.{
  Texts, required, pre_authorized, Scope, text, PolicyRuleV5, AutomationPolicyV5, EvaluationRequest,
  is_expired,
}
use cyber_sage.Automation.V5.Scope.{
  entries_of, match_ci_exact, match_by, passes_check, pass_checks, scope_matches_target,
  rule_matches,
}
use cyber_sage.Automation.V5.Validation.{
  has_length_of, matches_id, dimension_valid, normalize, validate_request, validate_scope,
  validate_rule, validate_rules, validate_policy,
}
use cyber_sage.Automation.V5.Collecting.{is_deny, add_policies, add_policy, add_rules, add_rule}
use cyber_sage.Automation.V5.Evaluation.{
  decide_policies, evaluate_policies, conclude, denied_by, allowed_by, asks_approval,
}
use cyber_sage.Automation.V5.Precedence.{candidate_sort_key, key_leb}
use cyber_sage.Prelude.TextOrder.{text_leb}
use cyber_sage.Automation.V5.Candidates.{is_live, denying}
use cyber_sage.Automation.V5.Verdicts.{
  Chooses, preferred, denies, others, evaluate_policies-Chooses,
}
use cyber_sage.Automation.V5.Denials.{evaluate_policies-deny, evaluate_policies-asks}
use cyber_sage.Automation.V5.Unordered.{evaluate_policies-unordered}
use cyber_sage.Automation.V5.Normal.{validate_scope-matches}
use cyber_sage.Automation.V5.Accepted.{AreValidRules, validate_policy-AreValidRules}

abbrev texts : Texts
texts = record {
  lower = λ s. s;
  Address = ℕ;
  Network = ℕ;
  ip_address = λ s. if s == "10.0.0.1" then some 1 else none;
  ip_network = λ s. if s == "10.0.0.0/8" then some 8 else none;
  same_address = nat_eq;
  contains = λ n a. leb a n;
  overlaps = λ n m. true;
  subnet_of = λ n m. some (leb n m);
}

abbrev deny_rule : PolicyRuleV5
deny_rule = record {
  rule_id = "r1";
  description = "";
  action_type = "process";
  action_name = "*";
  min_risk_score = 0;
  max_risk_score = 100;
  incident_severity = none;
  decision = deny;
  requires_approval = true;
  priority = 1;
  target_scope = some (("host_ids", "h1" ∷ []) ∷ []);
  approval_mode = required;
  max_executions_per_hour = none;
  cooldown_seconds = none;
}

abbrev free_rule : PolicyRuleV5
free_rule = record deny_rule {
  rule_id = "r2";
  decision = allow;
  requires_approval = false;
  priority = 900;
  target_scope = none;
  approval_mode = pre_authorized;
}

abbrev deny_policy : AutomationPolicyV5
deny_policy = record {
  policy_id = "p1";
  name = "p";
  description = "";
  mode = approval_required;
  enabled = true;
  version = 1;
  priority = 1;
  expires_at = none;
  rules = deny_rule ∷ [];
  created_at = 0;
  updated_at = 0;
}

abbrev free_policy : AutomationPolicyV5
free_policy = record deny_policy { policy_id = "p2"; rules = free_rule ∷ [] }

abbrev policies : List AutomationPolicyV5
policies = free_policy ∷ deny_policy ∷ []

abbrev preparing : List AutomationPolicyV5
preparing = record free_policy { mode = prepare_only } ∷ []

abbrev request : EvaluationRequest ℕ
request = record {
  action_type = "process";
  action_name = "terminate_process";
  target = ("host_id", text "h1") ∷ [];
  risk_score = 80;
  incident_severity = "high";
  incident_id = none;
  event_ids = "e1" ∷ [];
  requested_by = "system";
  correlation_id = none;
}

abbrev known : List (String × String)
known = ("process", "terminate_process") ∷ []

request_valid : validate_request 1 request ≡ ok tt
unfolding validate_request has_length_within first_chars
request_valid = refl

evaluated :
    (ps : List AutomationPolicyV5)
    → evaluate_policies texts 1 ps request 5 false ≡ ok (decide_policies texts ps request 5 false)
unfolding evaluate_policies
evaluated ps = ground (arith, request_valid)

-- The denying rule wins over one of a higher priority.
denied :
    decide_policies texts policies request 5 false
    ≡ record (decide_policies texts policies request 5 false) { matched_rule_id = some "r1" }
unfolding decide_policies conclude sort_by add_policies text_leb add_policy is_expired add_rules
    add_rule rule_matches denied_by candidate_sort_key key_leb scope_matches_target pass_checks
    passes_check match_by match_ci_exact entries_of lookup
denied = refl

evaluate_policies-Chooses_example :
    Chooses
      (preferred (denies texts 1 policies request 5) (others texts 1 policies request 5))
      (decide_policies texts policies request 5 false)
evaluate_policies-Chooses_example =
    evaluate_policies-Chooses texts 1 policies request 5
      (decide_policies texts policies request 5 false) (evaluated policies)

evaluate_policies-deny_example :
    is_deny (decide_policies texts policies request 5 false).decision
    ≡ (false || any (λ p. is_live 5 p && any (denying texts request p) p.rules) policies)
evaluate_policies-deny_example =
    evaluate_policies-deny texts 1 policies request 5 false
      (decide_policies texts policies request 5 false) (evaluated policies)

-- A pre-authorized rule of a policy that only prepares.
prepares : (decide_policies texts preparing request 5 false).would_require_approval ≡ false
unfolding decide_policies conclude sort_by add_policies text_leb add_policy is_expired add_rules
    add_rule rule_matches allowed_by asks_approval candidate_sort_key key_leb scope_matches_target
prepares = refl

evaluate_policies-asks_example :
    (decide_policies texts preparing request 5 false).decision ≡ only_prepare
evaluate_policies-asks_example =
    evaluate_policies-asks texts 1 preparing request 5 false
      (decide_policies texts preparing request 5 false) (evaluated preparing) prepares

evaluate_policies-unordered_example :
    evaluate_policies texts 1 (free_policy ∷ deny_policy ∷ []) request 5 false
    ≡ evaluate_policies texts 1 (deny_policy ∷ free_policy ∷ []) request 5 false
evaluate_policies-unordered_example =
    evaluate_policies-unordered texts 1 request 5 false (Permᴰ.swap refl refl)
      ((λ e. absurd (ground (arith, (eq_iff "p2" "p1").1 e)), tt), (tt, tt))

-- A scope with an unused dimension.
abbrev loose : Scope
loose = ("host_ids", "h1" ∷ []) ∷ ("user_names", []) ∷ []

abbrev tight : Scope
tight = ("host_ids", "h1" ∷ []) ∷ []

loose_normalized : validate_scope texts (some loose) ≡ ok tight
unfolding validate_scope normalize dimension_valid has_length_within first_chars has_dots insert
loose_normalized = refl

validate_scope-matches_example :
    scope_matches_target texts (some tight) request.target
    ≡ scope_matches_target texts (some loose) request.target
validate_scope-matches_example =
    validate_scope-matches texts request.target loose tight (unfold lookup in (refl, (refl, tt)))
      loose_normalized

deny_policy_valid :
    validate_policy texts 1 known deny_policy ≡ ok (record deny_policy { rules = deny_rule ∷ [] })
unfolding validate_policy validate_rules validate_rule matches_id validate_scope normalize
    dimension_valid has_length_within first_chars has_dots insert
deny_policy_valid = refl

validate_policy-AreValidRules_example :
    (matches_id "p1" ≡ true)
    × (has_length_of 255 deny_policy.name ≡ true)
    × (has_length_within 4096 deny_policy.description ≡ true)
    × (1 ≤ deny_policy.version)
    × (deny_policy.priority ≤ 1000)
    × (length deny_policy.rules ≤ 100)
    × AreValidRules texts 1 known (deny_rule ∷ [])
validate_policy-AreValidRules_example =
    validate_policy-AreValidRules texts 1 known deny_policy
      (record deny_policy { rules = deny_rule ∷ [] }) deny_policy_valid
