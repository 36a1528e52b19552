-- ===== src/Automation/Envelope/Gates.antt =====
-- `check_gates` of guardian/automation/envelope.py: every gate in the order of GATE_ORDER, where one
-- that fails skips the rest.
use cyber_sage.Prelude.{
  ℕ, drop, suc, String, Bool, false, ◌&&◌, Option, none, some, List, [], ◌∷◌, ◌++◌, if◌then◌else◌,
  ◌==◌, map, Result, ok, err, ◌>>=◌, ◌>>◌,
}
use cyber_sage.Prelude.Dict.{}
use cyber_sage.Actions.Registry.{get_action}
use cyber_sage.Execution.Gates.{Devices, get_breaker}
use cyber_sage.Automation.V5.Rules.{AutomationPolicyV5, EvaluationRequest, EvaluationResult}
use cyber_sage.Automation.V5.Validation.{PolicyValidationError}
use cyber_sage.Automation.V5.Evaluation.{evaluate_policies}
use cyber_sage.Automation.Envelope.State
use cyber_sage.Automation.Envelope.State.{
  hash_of, gate_order, GateName, GateReason, GateResult, EnvelopeRequest, Setting, World,
  RequestError, validate_envelope_request, skipped_after_failure,
}
use cyber_sage.Automation.Envelope.Checks.{
  Verdict, policy_gate, version_gate, identity_gate, global_gate, scoped_gate, switch_verdict,
  breaker_gate, rate_gate, matched_rule, cooldown_gate,
}
use cyber_sage.Automation.Envelope.Authority.{
  authorization_gate, target_gate, check_grant_for_request, is_bounded, preauth_gate, approval_gate,
}

-- A gate with its name: what it says of the world and how it leaves it.
abbrev pub Check : Type 0 → Type 0
Check W = GateName × (W → Verdict × W)

abbrev pub skipped : GateName → GateResult
skipped gate = record { gate = gate; passed = false; reason = skipped_after_failure }

-- `_pass` and `_fail`, gate by gate, after `done` gates: where one fails, the gates that are left in
-- GATE_ORDER, `GATE_ORDER[len(gates):]`, are skipped.
unfoldable pub run_gates : {W : Type 0} → List (Check W) → (done : ℕ) → W → List GateResult × W
run_gates [] done w = ([], w)
run_gates ((gate, check) ∷ rest) done w =
    let ((passed, reason), w') = check w in
    let (results, w'') = run_gates rest (suc done) w' in
    let result : GateResult = record { gate = gate; passed = passed; reason = reason } in
    if passed
    then (result ∷ results, w'')
    else (result ∷ map skipped (drop (suc done) gate_order), w')

-- A gate that only reads.
abbrev pub reading : {W : Type 0} → Verdict → W → Verdict × W
reading v w = (v, w)

unfoldable pub get_policy : String → List AutomationPolicyV5 → Option AutomationPolicyV5
get_policy id [] = none
get_policy id (policy ∷ policies) =
    if policy.policy_id == id then some policy else get_policy id policies

module _ {J : Type 0} where
  abbrev pub evaluation_request : EnvelopeRequest J → EvaluationRequest J
  evaluation_request request = record {
    action_type = request.action_type;
    action_name = request.action_name;
    target = request.target;
    risk_score = request.risk_score;
    incident_severity = request.incident_severity;
    incident_id = request.incident_id;
    event_ids = request.event_ids;
    requested_by = request.requested_by;
    correlation_id = request.correlation_id;
  }

  -- A gate of the devices, and one of the kill switch among them.
  abbrev pub on_devices : (Devices → Verdict × Devices) → World J → Verdict × World J
  on_devices gate w = let (v, d) = gate w.devices in (v, record w { devices = d })

-- What `check_gates` may raise.
pub data Failure : Type 0 where
  bad_request : RequestError → Failure
  bad_evaluation : PolicyValidationError → Failure

abbrev pub raised {ℓ} : {E : Type 0} {A : Type ℓ} → (E → Failure) → Result E A → Result Failure A
raised f (ok a) = ok a
raised f (err e) = err (f e)

module _ {J S : Type 0} (s : Setting J S) (request : EnvelopeRequest J) where
  abbrev pub leading : AutomationPolicyV5 → List (Check (World J))
  leading policy =
      (State.policy_active, reading (policy_gate policy s.clocks.active_at))
      ∷ (State.policy_version, reading (version_gate policy request.expected_policy_version))
      ∷ []

  abbrev pub global_switch : Devices → Verdict × Devices
  global_switch d =
      let (blocked, ks) =
        global_gate s.tables.session request.agent_key request.action_type d.kill_switch in
      (switch_verdict blocked, record d { kill_switch = ks })

  abbrev pub scoped_switch : Devices → Verdict × Devices
  scoped_switch d =
      let (blocked, ks) =
        scoped_gate s.tables.session request.agent_key request.action_type d.kill_switch in
      (switch_verdict blocked, record d { kill_switch = ks })

  abbrev pub breaker : Devices → Verdict × Devices
  breaker d =
      breaker_gate (get_breaker request.action_type d.breakers) request.action_type
        s.clocks.breaker_clock d

  abbrev pub limiter : (record_quota : Bool) → Devices → Verdict × Devices
  limiter record_quota = rate_gate record_quota request.action_type s.clocks.limiter_clock

  abbrev pub approvals : World J → Verdict × World J
  approvals w =
      let (v, db) =
        approval_gate s.same_json (is_bounded s.texts request) request s.clocks.approved_at
          w.database in
      (v, record w { database = db })

  abbrev pub following :
      (record_quota : Bool) → AutomationPolicyV5 → EvaluationResult → List (Check (World J))
  following record_quota policy fresh =
      let rule = matched_rule policy fresh in
      (State.identity, reading (identity_gate (hash_of s) s.tables.evaluations request))
      ∷ (State.kill_switch_global, on_devices global_switch)
      ∷ (State.kill_switch_scoped, on_devices scoped_switch)
      ∷ (State.circuit_breaker, on_devices breaker)
      ∷ (State.rate_limit, on_devices (limiter record_quota))
      ∷ (
        State.cooldown,
        reading (
            cooldown_gate policy.policy_id (hash_of s request.target) s.clocks.cooldown_at rule
              s.tables.runs),
      )
      ∷ (
        State.target_validation,
        reading (
            target_gate (get_action s.tables.registry request.action_type request.action_name)
              request),
      )
      ∷ (State.policy_authorization, reading (authorization_gate fresh rule))
      ∷ (
        State.preauth_authorization,
        reading (
            preauth_gate (is_bounded s.texts request) rule (
              check_grant_for_request s.texts s.tables.grants policy request s.clocks.covered_at
                s.clocks.frequency_at s.tables.runs)),
      )
      ∷ (State.approval, approvals)
      ∷ []

  -- The policy is active and of the expected version, so that the evaluation is reached.
  abbrev pub is_current : AutomationPolicyV5 → Bool
  is_current policy =
      (policy_gate policy s.clocks.active_at).0
      && (version_gate policy request.expected_policy_version).0

  unfoldable pub check_policy :
      (record_quota : Bool)
      → Option AutomationPolicyV5
      → World J
      → Result Failure (List GateResult × World J)
  check_policy record_quota none w = ok (
    record { gate = State.policy_active; passed = false; reason = State.policy_not_found }
        ∷ map skipped (drop 1 gate_order),
    w,
  )
  check_policy record_quota (some policy) w =
      if is_current policy
      then (raised bad_evaluation (
            evaluate_policies s.texts s.point (policy ∷ []) (evaluation_request request)
              s.clocks.evaluated_at false)
          >>= λ fresh. ok (run_gates (leading policy ++ following record_quota policy fresh) 0 w))
      else ok (run_gates (leading policy) 0 w)

  unfoldable pub check_gates :
      (record_quota : Bool) → World J → Result Failure (List GateResult × World J)
  check_gates record_quota w = do
    raised bad_request (validate_envelope_request s.texts s.point s.tables request)
    check_policy record_quota (get_policy request.policy_id s.tables.policies) w
