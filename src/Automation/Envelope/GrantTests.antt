-- ===== src/Automation/Envelope/GrantTests.antt =====
-- An activation, and a revocation after which a bounded request does not pass the gates.
use cyber_sage.Prelude.{
  ℕ, String, ◌≡◌, refl, true, false, Option, none, some, List, [], ◌∷◌, ◌++◌, arith, Result, ok,
  err, has_length_within, first_chars, has_dots,
}
use cyber_sage.Prelude.Dict.{lookup, insert}
use cyber_sage.Actions.Registry.{register_action, get_action, is_registered}
use cyber_sage.Automation.V5.Rules.{EvaluationResult, is_expired}
use cyber_sage.Automation.V5.Validation.{
  validate_request, validate_scope, normalize, dimension_valid,
}
use cyber_sage.Automation.V5.Evaluation.{decide_policies, evaluate_policies}
use cyber_sage.Automation.Envelope.Grants.{
  Grant, get_grant, find_preauth_rule, policy_supports_preauth,
}
use cyber_sage.Automation.Envelope.State.{
  EnvelopeRequest, Setting, World, mode_of, validate_envelope_request,
}
use cyber_sage.Automation.Envelope.Checks.{policy_gate, version_gate}
use cyber_sage.Automation.Envelope.Authority.{is_bounded}
use cyber_sage.Automation.Envelope.Gates.{
  Check, run_gates, evaluation_request, get_policy, leading, following, is_current, check_gates,
}
use cyber_sage.Automation.Envelope.Granting.{
  GrantError, GrantPayload, moment, action_checked, check_actions, validate_allowed_actions,
  validate_grant_bounds, store_grant, store_revoked, activate_bounds, activate_grant, revoke_grant,
}
use cyber_sage.Automation.Envelope.Report.{all_passed, stepped}
use cyber_sage.Automation.Envelope.Revoked.{revoke_grant-check_gates}
use cyber_sage.Automation.Envelope.Samples.{texts, policy, registry, request, setting, world}

abbrev payload : GrantPayload
payload = record {
  policy_id = "p1";
  allowed_actions = ("process", "terminate") ∷ [];
  target_scope = some (("host_ids", "h1" ∷ []) ∷ []);
  agent_scope = none;
  max_risk_score = 90;
  max_executions_per_hour = 2;
  cooldown_seconds = 60;
  expires_at = moment 5000;
  safety_gates = [];
  reason = "drill";
  rollback_required = false;
}

abbrev never_iso : String → Option ℕ
never_iso s = none

abbrev written : Result GrantError (List Grant) → List Grant
written (ok grants) = grants
written (err e) = []

abbrev activated : Result GrantError (List Grant)
activated = activate_grant registry texts never_iso 1 10 11 12 "op" payload (policy ∷ []) []

abbrev revoking : Result GrantError (List Grant)
revoking = revoke_grant 20 "p1" "op" "drill" (written activated)

revokes : revoking ≡ ok (written revoking)
unfolding revoke_grant activate_grant validate_grant_bounds validate_allowed_actions check_actions
    action_checked is_registered get_action register_action lookup insert has_length_within
    first_chars has_dots validate_scope normalize dimension_valid activate_bounds get_policy
    policy_supports_preauth is_expired find_preauth_rule store_grant get_grant store_revoked
revokes = refl

abbrev bounded_request : EnvelopeRequest ℕ
bounded_request = record request {
  authorization_mode = "preauthorized_bounded";
  approval_id = none;
}

abbrev later_setting : Setting ℕ ℕ
later_setting = record setting { tables = record setting.tables { grants = written revoking } }

bounded : is_bounded texts bounded_request ≡ true
unfolding mode_of
bounded = refl

abbrev fresh : EvaluationResult
fresh = decide_policies texts (policy ∷ []) (evaluation_request bounded_request) 61 false

request_valid : validate_request 1 (evaluation_request bounded_request) ≡ ok tt
unfolding validate_request has_length_within first_chars
request_valid = refl

evaluated :
    evaluate_policies texts 1 (policy ∷ []) (evaluation_request bounded_request) 61 false ≡ ok fresh
unfolding evaluate_policies
evaluated = ground (arith, request_valid)

validated : validate_envelope_request texts 1 later_setting.tables bounded_request ≡ ok tt
unfolding validate_envelope_request is_registered get_action register_action lookup insert mode_of
    has_length_within first_chars
validated = refl

current : is_current later_setting bounded_request policy ≡ true
unfolding policy_gate version_gate is_expired
current = refl

abbrev gates : List (Check (World ℕ))
gates =
    leading later_setting bounded_request policy
    ++ following later_setting bounded_request true policy fresh

reported : check_gates later_setting bounded_request true world ≡ ok (run_gates gates 0 world)
unfolding check_gates get_policy
reported =
    rw validated (stepped later_setting bounded_request true policy world fresh current evaluated)

revoke_grant-check_gates_example : all_passed (run_gates gates 0 world).0 ≡ false
revoke_grant-check_gates_example =
    revoke_grant-check_gates later_setting bounded_request 20 "op" "drill" (written activated) true
      world (run_gates gates 0 world).1 (run_gates gates 0 world).0 revokes bounded reported
