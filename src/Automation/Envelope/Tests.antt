-- ===== src/Automation/Envelope/Tests.antt =====
-- A request of guardian/automation/envelope.py that passes every gate on an approval.
use cyber_sage.Prelude.{
  ℕ, ◌≡◌, refl, true, false, some, List, [], ◌∷◌, arith, ok, map, first_chars, ◌++◌, ap,
  has_length_within,
}
use cyber_sage.Prelude.Dict.{lookup, insert}
use cyber_sage.Prelude.Sorting.{sort_by}
use cyber_sage.Prelude.TextOrder.{text_leb}
use cyber_sage.Safety.KillSwitch
use cyber_sage.Safety.KillSwitch.{is_blocked}
use cyber_sage.Safety.RateLimiter
use cyber_sage.Safety.RateLimiter.{check_and_record, prune}
use cyber_sage.Safety.CircuitBreaker
use cyber_sage.Safety.CircuitBreaker.{allow_action, evaluate_state}
use cyber_sage.Actions.Registry.{register_action, get_action, is_registered}
use cyber_sage.Approval.Tables.{find_request}
use cyber_sage.Approval.Manager.{validate_found, validate_for_execution}
use cyber_sage.Execution.Gates.{
  is_persisted_active, is_valid_key, table_exists, row_active, first_row, get_breaker,
  or_new_breaker,
}
use cyber_sage.Execution.State.{}
use cyber_sage.Automation.Policy.{require_approval}
use cyber_sage.Automation.V5.Rules.{AutomationPolicyV5, EvaluationResult, is_expired}
use cyber_sage.Automation.V5.Scope.{rule_matches, scope_matches_target}
use cyber_sage.Automation.V5.Validation.{validate_request}
use cyber_sage.Automation.V5.Precedence.{candidate_sort_key, key_leb}
use cyber_sage.Automation.V5.Collecting.{add_policies, add_policy, add_rules, add_rule}
use cyber_sage.Automation.V5.Evaluation.{
  conclude, allowed_by, asks_approval, decide_policies, evaluate_policies,
}
use cyber_sage.Automation.Envelope.Samples.{texts, rule, policy, request, setting, database, world}
use cyber_sage.Automation.Envelope.State.{
  hash_of, gate_order, World, mode_of, validate_envelope_request,
}
use cyber_sage.Automation.Envelope.Checks.{
  policy_gate, version_gate, identity_gate, global_gate, scoped_blocked, scoped_gate, breaker_gate,
  rate_gate, find_rule, matched_rule, cooldown_gate, frequency_verdict,
}
use cyber_sage.Automation.Envelope.Authority.{
  authorization_gate, target_gate, preauth_gate, approval_gate, is_bounded, check_grant_for_request,
}
use cyber_sage.Automation.Envelope.Gates.{
  Check, evaluation_request, leading, following, is_current, run_gates, get_policy, check_gates,
}
use cyber_sage.Automation.Envelope.Report.{
  IsCut, check_gates-names, Pass, world_after, Pass-run_gates, stepped,
}
use cyber_sage.Automation.Envelope.Requirements.{Authorized}
use cyber_sage.Automation.Envelope.Authorized.{check_gates-Authorized}

abbrev fresh : EvaluationResult
fresh = decide_policies texts (policy ∷ []) (evaluation_request request) 61 false

request_valid : validate_request 1 (evaluation_request request) ≡ ok tt
unfolding validate_request has_length_within first_chars
request_valid = refl

evaluated : evaluate_policies texts 1 (policy ∷ []) (evaluation_request request) 61 false ≡ ok fresh
unfolding evaluate_policies
evaluated = ground (arith, request_valid)

fresh_allows : fresh ≡ record fresh { decision = require_approval; matched_rule_id = some "r1" }
unfolding decide_policies conclude sort_by add_policies text_leb add_policy is_expired add_rules
    add_rule rule_matches allowed_by asks_approval candidate_sort_key key_leb scope_matches_target
fresh_allows = refl

matched : matched_rule policy fresh ≡ some rule
unfolding matched_rule find_rule
matched = rw (ap (λ r. r.matched_rule_id) fresh_allows) refl

abbrev gates : List (Check (World ℕ))
gates = leading setting request policy ++ following setting request true policy fresh

validated : validate_envelope_request texts 1 setting.tables request ≡ ok tt
unfolding validate_envelope_request is_registered get_action register_action lookup insert mode_of
    has_length_within first_chars
validated = refl

current : is_current setting request policy ≡ true
unfolding policy_gate version_gate is_expired
current = refl

reported : check_gates setting request true world ≡ ok (run_gates gates 0 world)
unfolding check_gates get_policy
reported = rw validated (stepped setting request true policy world fresh current evaluated)

cooldown_passes :
    (cooldown_gate "p1" (hash_of setting request.target) 64 (matched_rule policy fresh) []).0 ≡ true
unfolding cooldown_gate frequency_verdict
cooldown_passes = rw matched refl

authorization_passes : (authorization_gate fresh (matched_rule policy fresh)).0 ≡ true
unfolding authorization_gate
authorization_passes = rw (matched, ap (λ r. r.decision) fresh_allows) refl

manual : is_bounded texts request ≡ false
unfolding mode_of
manual = refl

preauth_passes :
    (preauth_gate
      (is_bounded texts request)
      (matched_rule policy fresh)
      (check_grant_for_request texts [] policy request 65 66 [])).0
    ≡ true
unfolding preauth_gate
preauth_passes = rw manual refl

approval_passes :
    (approval_gate setting.same_json (is_bounded texts request) request 67 database).0.0 ≡ true
unfolding approval_gate validate_for_execution validate_found find_request mode_of
approval_passes = refl

gates-Pass : Pass gates world (world_after gates world)
unfolding policy_gate version_gate is_expired identity_gate global_gate is_blocked
    KillSwitch.get_or_create is_persisted_active is_valid_key table_exists row_active first_row
    scoped_gate scoped_blocked breaker_gate get_breaker or_new_breaker allow_action evaluate_state
    CircuitBreaker.init rate_gate check_and_record prune RateLimiter.init target_gate get_action
    register_action lookup insert has_length_within first_chars
gates-Pass = (
  refl,
  (
    refl,
    (
      refl,
      (
        refl,
        (
          refl,
          (
            refl,
            (
              refl,
              (
                cooldown_passes,
                (refl, (authorization_passes, (preauth_passes, (approval_passes, refl)))),
              ),
            ),
          ),
        ),
      ),
    ),
  ),
)

check_gates-names_example :
    (map (λ g. g.gate) (run_gates gates 0 world).0 ≡ gate_order) × IsCut (run_gates gates 0 world).0
check_gates-names_example =
    check_gates-names setting request true world (run_gates gates 0 world).1
      (run_gates gates 0 world).0 reported

check_gates-Authorized_example :
    (p : AutomationPolicyV5) × (f : EvaluationResult) × Authorized setting request world p f
check_gates-Authorized_example =
    check_gates-Authorized setting request true world (run_gates gates 0 world).1
      (run_gates gates 0 world).0 reported
      (Pass-run_gates gates 0 world (world_after gates world) gates-Pass)
