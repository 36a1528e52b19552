-- ===== src/Automation/Conflicts/Tests.antt =====
-- Runs of guardian/automation/conflicts.py: two rules of one policy, of which the second is covered
-- by the first. Letter case is kept, and the only addresses are small numbers.
use cyber_sage.Prelude.{
  ℕ, String, ◌≡◌, ◌≢◌, ◌∙◌, ap, sym, ok, has_length_within, first_chars, refl, inr, true, false,
  none, some, [], ◌∷◌, leb, nat_eq, if◌then◌else◌, ◌==◌, arith, eq_iff,
}
use mathlib.Core.List.{Memᴰ, Sublistᴰ}
use cyber_sage.Prelude.Dict.{lookup}
use cyber_sage.Prelude.Sorting.{sort_by}
use cyber_sage.Prelude.TextOrder.{text_leb}
use cyber_sage.Automation.Policy.{approval_required, allow, deny}
use cyber_sage.Automation.V5.Rules.{
  Texts, required, text, PolicyRuleV5, AutomationPolicyV5, EvaluationRequest, EvaluationResult,
  is_expired,
}
use cyber_sage.Automation.V5.Scope.{
  entries_of, match_ci_exact, match_by, passes_check, pass_checks, scope_matches_target,
  rule_matches,
}
use cyber_sage.Automation.V5.Precedence.{by_policy_id, candidate_sort_key, key_leb}
use cyber_sage.Automation.V5.Collecting.{
  add_policies, add_policy, add_rules, add_rule, Candidate, candidate, matches_request,
}
use cyber_sage.Automation.V5.Candidates.{}
use cyber_sage.Automation.V5.Verdicts.{}
use cyber_sage.Automation.Conflicts.Subset.{
  rule_match_subset, action_is_subset, scope_is_subset, subset_dicts,
}
use cyber_sage.Automation.Conflicts.Analysis.{
  Kind, finding, flatten, analyze_policy_conflicts, precedence, policy_is_active,
}
use cyber_sage.Automation.Conflicts.Common.{IpLaws}
use cyber_sage.Automation.Conflicts.Covering.{rule_matches-subset}
use cyber_sage.Automation.Conflicts.Shadowed.{IsListed}
use cyber_sage.Automation.Conflicts.Picked.{HasDistinctIds, shadowed-evaluate_policies}
use cyber_sage.Automation.V5.Validation.{validate_request}
use cyber_sage.Automation.V5.Evaluation.{conclude, denied_by, decide_policies, evaluate_policies}
use cyber_sage.Automation.Conflicts.Complete.{analyze-Memᴰ}

abbrev texts : Texts
texts = record {
  lower = λ s. s;
  Address = ℕ;
  Network = ℕ;
  ip_address = λ s. if s == "10.0.0.1" then some 1 else none;
  ip_network = λ s. if s == "10.0.0.0/8" then some 8 else none;
  same_address = nat_eq;
  contains = λ n a. leb a n;
  overlaps = λ n m. true;
  subnet_of = λ n m. some (leb n m);
}

laws : IpLaws texts
laws = record {
  same_address_refl = λ a. ground arith;
  same_address-eq = λ a b h. ground (arith, h);
  overlaps_common = λ n m a h g. refl;
  subnet_contains = λ n m a h g. ground (arith, h, g);
}

abbrev wide_rule : PolicyRuleV5
wide_rule = record {
  rule_id = "r1";
  description = "";
  action_type = "process";
  action_name = "*";
  min_risk_score = 0;
  max_risk_score = 100;
  incident_severity = none;
  decision = deny;
  requires_approval = true;
  priority = 1;
  target_scope = none;
  approval_mode = required;
  max_executions_per_hour = none;
  cooldown_seconds = none;
}

abbrev narrow_rule : PolicyRuleV5
narrow_rule = record wide_rule {
  rule_id = "r2";
  min_risk_score = 50;
  decision = allow;
  priority = 900;
  target_scope = some (("host_ids", "h1" ∷ []) ∷ []);
}

abbrev policy : AutomationPolicyV5
policy = record {
  policy_id = "p1";
  name = "p";
  description = "";
  mode = approval_required;
  enabled = true;
  version = 1;
  priority = 1;
  expires_at = none;
  rules = wide_rule ∷ narrow_rule ∷ [];
  created_at = 0;
  updated_at = 0;
}

abbrev request : EvaluationRequest ℕ
request = record {
  action_type = "process";
  action_name = "terminate_process";
  target = ("host_id", text "h1") ∷ [];
  risk_score = 80;
  incident_severity = "high";
  incident_id = none;
  event_ids = [];
  requested_by = "system";
  correlation_id = none;
}

abbrev no_digest : Candidate → Candidate → Kind → String
no_digest a b kind = ""

abbrev wide : Candidate
wide = candidate policy wide_rule

abbrev narrow : Candidate
narrow = candidate policy narrow_rule

matches_wide : matches_request texts request wide_rule ≡ true
unfolding rule_matches scope_matches_target
matches_wide = refl

matches_narrow : matches_request texts request narrow_rule ≡ true
unfolding rule_matches scope_matches_target pass_checks passes_check match_by match_ci_exact
    entries_of lookup
matches_narrow = refl

narrow_covered : rule_match_subset texts narrow_rule wide_rule ≡ true
unfolding rule_match_subset action_is_subset scope_is_subset subset_dicts
narrow_covered = refl

rule_matches-subset_example :
    rule_matches texts wide_rule "process" "terminate_process" 80 "high" request.target ≡ true
rule_matches-subset_example =
    rule_matches-subset texts laws narrow_rule wide_rule "process" "terminate_process" 80 "high"
      request.target narrow_covered matches_narrow

both_active : (finding texts no_digest 5 wide narrow).runtime_impact ≡ true
unfolding finding policy_is_active is_expired
both_active = refl

covered_in_full : (finding texts no_digest 5 wide narrow).full_coverage ≡ true
unfolding finding precedence rule_match_subset action_is_subset scope_is_subset subset_dicts
covered_in_full = refl

wide-IsListed : IsListed (policy ∷ []) wide
wide-IsListed = record {
  in_policies = Memᴰ.head refl;
  in_rules = Memᴰ.head refl;
  is_candidate = refl;
}

narrow-IsListed : IsListed (policy ∷ []) narrow
narrow-IsListed = record {
  in_policies = Memᴰ.head refl;
  in_rules = Memᴰ.tail (Memᴰ.head refl);
  is_candidate = refl;
}

rules_differ : wide_rule.rule_id ≢ narrow_rule.rule_id
rules_differ e = absurd (ground (arith, (eq_iff "r1" "r2").1 e))

policy-HasDistinctIds : HasDistinctIds (policy ∷ [])
policy-HasDistinctIds = ((tt, tt), (((rules_differ, tt), (tt, tt)), tt))

abbrev decided : EvaluationResult
decided = decide_policies texts (policy ∷ []) request 5 false

request_valid : validate_request 1 request ≡ ok tt
unfolding validate_request has_length_within first_chars
request_valid = refl

evaluated : evaluate_policies texts 1 (policy ∷ []) request 5 false ≡ ok decided
unfolding evaluate_policies
evaluated = ground (arith, request_valid)

decided_by : decided ≡ record decided { matched_policy_id = some "p1"; matched_rule_id = some "r1" }
unfolding decide_policies conclude sort_by add_policies text_leb add_policy is_expired add_rules
    add_rule rule_matches denied_by candidate_sort_key key_leb scope_matches_target pass_checks
    passes_check match_by match_ci_exact entries_of lookup
decided_by = refl

loser_is_narrow : (finding texts no_digest 5 wide narrow).loser ≡ narrow
unfolding finding precedence
loser_is_narrow = refl

named_policy :
    decided.matched_policy_id ≡ some (finding texts no_digest 5 wide narrow).loser.policy.policy_id
named_policy =
    ap (λ r. r.matched_policy_id) decided_by
    ∙ ap (λ (c : Candidate). some c.policy.policy_id) (sym loser_is_narrow)

shadowed-evaluate_policies_example :
    decided.matched_rule_id ≢ some (finding texts no_digest 5 wide narrow).loser.rule.rule_id
shadowed-evaluate_policies_example =
    shadowed-evaluate_policies texts no_digest laws (policy ∷ []) request 1 5 wide narrow decided
      policy-HasDistinctIds wide-IsListed narrow-IsListed (inr rules_differ) refl refl both_active
      covered_in_full evaluated named_policy

in_order : Sublistᴰ (wide ∷ narrow ∷ []) (flatten (sort_by by_policy_id (policy ∷ [])))
unfolding flatten sort_by text_leb
in_order = Sublistᴰ.cons-cons refl (Sublistᴰ.cons-cons refl Sublistᴰ.slnil)

analyze-Memᴰ_example :
    Memᴰ
      (finding texts no_digest 5 wide narrow)
      (analyze_policy_conflicts texts no_digest (policy ∷ []) 5)
analyze-Memᴰ_example =
    analyze-Memᴰ texts no_digest 5 laws (policy ∷ []) request wide narrow in_order matches_wide
      matches_narrow
