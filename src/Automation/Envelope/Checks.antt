-- ===== src/Automation/Envelope/Checks.antt =====
-- The single gates of `check_gates` in guardian/automation/envelope.py, with the grant check of
-- guardian/automation/preauth_store.py.
use cyber_sage.Prelude.{
  ℕ, ◌+◌, ◌*◌, String, Bool, true, false, not, ◌&&◌, ◌||◌, Option, none, some, List, [], ◌∷◌, ltb,
  leb, nat_eq, if◌then◌else◌, ◌==◌, count_if, truthy,
}
use cyber_sage.Prelude.Dict.{Dict, insert}
use cyber_sage.Safety.KillSwitch.{KillSwitchScope, global, agent, action, KillSwitch, is_blocked}
use cyber_sage.Safety.CircuitBreaker.{CircuitBreaker, allow_action}
use cyber_sage.Safety.RateLimiter.{check_and_record, check_only}
use cyber_sage.Actions.Registry.{}
use cyber_sage.Approval.Manager.{}
use cyber_sage.Execution.Gates.{Session, Devices, is_persisted_active}
use cyber_sage.Execution.State.{}
use cyber_sage.Automation.V5.Rules.{
  Value, PolicyRuleV5, AutomationPolicyV5, is_expired, EvaluationResult,
}
use cyber_sage.Automation.V5.Collecting.{is_disabled}
use cyber_sage.Automation.Envelope.Grants.{}
use cyber_sage.Automation.Envelope.State
use cyber_sage.Automation.Envelope.State.{
  is_blocked_status, GateReason, EnvelopeRequest, EvaluationRow, RunRow, Tables, World, Clocks,
  mode_of,
}

-- What a gate says, and the world after it.
abbrev pub Verdict : Type 0
Verdict = Bool × GateReason

unfoldable pub policy_gate : AutomationPolicyV5 → ℕ → Verdict
policy_gate policy now =
    if not policy.enabled || is_disabled policy.mode || is_expired policy now
    then (false, State.policy_not_active)
    else (true, State.policy_is_active)

unfoldable pub version_gate : AutomationPolicyV5 → ℕ → Verdict
version_gate policy expected =
    if not (nat_eq policy.version expected)
    then (false, State.stale_policy_version)
    else (true, State.version_match)

-- `row.policy_version is not None and row.policy_version != expected`
abbrev pub other_version : Option ℕ → ℕ → Bool
other_version none expected = false
other_version (some v) expected = not (nat_eq v expected)

abbrev pub same_text? : Option String → String → Bool
same_text? none s = false
same_text? (some r) s = r == s

abbrev pub same_number? : Option ℕ → Option ℕ → Bool
same_number? none none = true
same_number? (some a) (some b) = nat_eq a b
same_number? _ _ = false

module _ {J : Type 0} where
  unfoldable pub find_evaluation : String → List (EvaluationRow J) → Option (EvaluationRow J)
  find_evaluation id [] = none
  find_evaluation id (row ∷ rows) =
      if row.evaluation_id == id then some row else find_evaluation id rows

  unfoldable pub binding_gate :
      (hash : Dict (Value J) → String) → Option (EvaluationRow J) → EnvelopeRequest J → Verdict
  binding_gate hash none request = (false, State.evaluation_not_found)
  binding_gate hash (some row) request =
      if not (same_text? row.policy_id request.policy_id)
        || not (row.action_type == request.action_type)
        || not (row.action_name == request.action_name)
        || not (hash row.target == hash request.target)
        || not (same_number? row.incident_id request.incident_id)
      then (false, State.identity_mismatch)
      else if other_version row.policy_version request.expected_policy_version
      then (false, State.stale_evaluation_version)
      else (true, State.identity_verified)

  unfoldable pub identity_gate :
      (hash : Dict (Value J) → String) → List (EvaluationRow J) → EnvelopeRequest J → Verdict
  identity_gate hash rows request = elim (truthy request.evaluation_id) [
    | none ↦ (true, State.no_evaluation_binding)
    | some id ↦ binding_gate hash (find_evaluation id rows) request
  ]

-- `agent_key and is_persisted_active(...)`
abbrev pub persisted_for : Session → KillSwitchScope → Option String → Bool
persisted_for session scope key = elim (truthy key) [
  | none ↦ false
  | some k ↦ is_persisted_active scope k session
]

-- `is_blocked_combined` of the global scope.
unfoldable pub global_gate :
    Session → (agent_key : Option String) (action_type : String) → KillSwitch → Bool × KillSwitch
global_gate session agent_key action_type ks =
    let ((blocked, reason), ks') = is_blocked global "global" agent_key (some action_type) ks in
    (
      blocked
          || is_persisted_active global "global" session
          || persisted_for session agent agent_key
          || persisted_for session action (some action_type),
      ks',
    )

-- One pair of the loop over the scoped switches.
unfoldable pub scoped_blocked : Session → KillSwitchScope → String → KillSwitch → Bool × KillSwitch
scoped_blocked session scope key ks =
    let ((blocked, reason), ks') = is_blocked scope key none none ks in
    (blocked || is_persisted_active scope key session, ks')

unfoldable pub scoped_gate :
    Session → (agent_key : Option String) (action_type : String) → KillSwitch → Bool × KillSwitch
scoped_gate session agent_key action_type ks =
    let (blocked, ks') = scoped_blocked session action action_type ks in
    if blocked then (true, ks') else elim (truthy agent_key) [
      | none ↦ (false, ks')
      | some k ↦ scoped_blocked session agent k ks'
    ]

abbrev pub switch_verdict : Bool → Verdict
switch_verdict true = (false, State.kill_switch_active)
switch_verdict false = (true, State.kill_switch_clear)

unfoldable pub breaker_gate :
    Option CircuitBreaker → String → Option ℕ → Devices → Verdict × Devices
breaker_gate none action_type clock d = ((false, State.circuit_breaker_error), d)
breaker_gate (some cb) action_type clock d =
    let (allowed, cb') = allow_action cb clock in
    (
      if allowed then (true, State.circuit_breaker_closed) else (false, State.circuit_breaker_open),
      record d { breakers = insert action_type cb' d.breakers },
    )

unfoldable pub rate_gate : (record_quota : Bool) → String → Option ℕ → Devices → Verdict × Devices
rate_gate record_quota action_type clock d =
    let ((allowed, reason), rl) =
      if record_quota
      then check_and_record action_type clock d.limiter
      else check_only action_type clock d.limiter in
    (
      if allowed then (true, State.rate_limit_ok) else (false, State.rate_limit_exceeded),
      record d { limiter = rl },
    )

unfoldable pub find_rule : String → List PolicyRuleV5 → Option PolicyRuleV5
find_rule id [] = none
find_rule id (rule ∷ rules) = if rule.rule_id == id then some rule else find_rule id rules

-- The rule of the policy that the evaluation matched.
unfoldable pub matched_rule : AutomationPolicyV5 → EvaluationResult → Option PolicyRuleV5
matched_rule policy fresh = elim (truthy fresh.matched_rule_id) [
  | none ↦ none
  | some id ↦ find_rule id policy.rules
]

-- The runs on the target since `seconds` ago that were not blocked.
unfoldable pub recent_runs : (policy_id hash : String) (seconds now : ℕ) → List RunRow → ℕ
recent_runs policy_id hash seconds now runs =
    count_if
      (λ r.
        r.policy_id == policy_id
        && r.target_hash == hash
        && not (is_blocked_status r.status)
        && leb now (r.created_at + seconds * 1000000))
      runs

-- A cap of zero is no cap.
abbrev pub cap_of : Option ℕ → Option ℕ
cap_of none = none
cap_of (some n) = if nat_eq n 0 then none else some n

unfoldable pub frequency_verdict :
    (policy_id hash : String) (now : ℕ) → PolicyRuleV5 → List RunRow → Verdict
frequency_verdict policy_id hash now rule runs = elim (cap_of rule.max_executions_per_hour) [
  | none ↦ (true, State.cooldown_clear)
  | some n ↦
      if leb n (recent_runs policy_id hash 3600 now runs)
      then (false, State.max_frequency_exceeded)
      else (true, State.cooldown_clear)
]

unfoldable pub cooldown_gate :
    (policy_id hash : String) (now : ℕ) → Option PolicyRuleV5 → List RunRow → Verdict
cooldown_gate policy_id hash now none runs = (true, State.cooldown_clear)
cooldown_gate policy_id hash now (some rule) runs = elim (cap_of rule.cooldown_seconds) [
  | none ↦ frequency_verdict policy_id hash now rule runs
  | some seconds ↦
      if ltb 0 (recent_runs policy_id hash seconds now runs)
      then (false, State.cooldown_active)
      else frequency_verdict policy_id hash now rule runs
]
