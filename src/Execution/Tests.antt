-- ===== src/Execution/Tests.antt =====
-- One approved attempt that is executed, by backend/api_guardian_phase3.py. JSON values are texts
-- here, and the hash is the text itself.
use cyber_sage.Prelude.{
  ℕ, String, ◌≡◌, ◌≢◌, ◌↔◌, refl, ap, Bool, true, false, Option, none, some, List, [], ◌∷◌, arith,
  ◌==◌, ok, err, length, first_chars, has_length_within,
}
use cyber_sage.Prelude.Dict.{lookup, insert}
use cyber_sage.Safety.KillSwitch
use cyber_sage.Safety.RateLimiter
use cyber_sage.Safety.CircuitBreaker
use cyber_sage.Safety.CircuitBreaker.{CircuitBreaker, allow_action, evaluate_state, record_success}
use cyber_sage.Safety.KillSwitch.{is_blocked}
use cyber_sage.Safety.RateLimiter.{check_and_record, prune}
use cyber_sage.Actions.Lifecycle.{
  planned, awaiting_approval, blocked, approved, validate_state_transition,
  valid_action_transitions,
}
use cyber_sage.Actions.Registry.{register_action, get_action}
use cyber_sage.Approval.Tables.{
  ApprovalRequest, empty, find_request, write_status, compute_approval_id, has_record,
}
use cyber_sage.Approval.Creation.{create_with_id, create_approval_request}
use cyber_sage.Approval.Manager.{approve_request, validate_for_execution}
use cyber_sage.Approval.Status.{Call, propose, approve, apply, run}
use cyber_sage.Approval.Explicit.{recorded}
use cyber_sage.Approval.Execution.{Permits}
use cyber_sage.Execution.Gates.{
  Session, Devices, pre_execution_safety, through_breaker, limit, get_breaker, or_new_breaker,
  is_blocked_combined, is_persisted_active, is_valid_key, table_exists, record_breaker_outcome,
  feed, row_active, first_row,
}
use cyber_sage.Execution.State.{history, Attempt, RegisteredAction, Backend, Moment}
use cyber_sage.Execution.Handler.{
  execute_action, found_attempt, past_validation, gated, registered, run_action, after_execution,
  closing, verified, verify_action,
}
use cyber_sage.Execution.Laws.{gate_of}
use cyber_sage.Execution.Approved.{executed_needs_approval}
use cyber_sage.Execution.Once.{execute, execute_once}
use cyber_sage.Execution.Routes.{IsLegal}
use cyber_sage.Execution.Statuses.{execute-IsLegal}
use cyber_sage.Execution.Order.{pre_execution_safety_lem}

abbrev plain : String → String
plain s = s

abbrev same_text : String → String → Bool
same_text a b = a == b

abbrev terminate : RegisteredAction String String
terminate = record {
  validate = λ target parameters. (true, []);
  requires_snapshot = true;
  snapshot = λ target action_id. some target;
  execute = λ target parameters snap. ok (record { success = true; output = "gone"; error = none });
  verify = λ target r. ok (record { passed = true; failure_reason = none });
  rollback = record { rollback_supported = false; rollback = λ target snap. err "not supported" };
}

abbrev registry : String → String → Option (RegisteredAction String String)
registry = get_action (register_action "process" "terminate" terminate [])

abbrev script : List (Call String)
script =
    propose
      (record {
        incident_id = none;
        decision_id = "rd-1";
        requested_action = "terminate_process";
        action_type = "process";
        target = "pid 7";
        rationale = "";
        risk = none;
        requested_by = "system";
        ttl_minutes = 30;
      })
      0 empty
    ∷ approve "apr-approval|process" "ann" none 60
    ∷ []

abbrev attempt : Attempt String
attempt = record {
  action_id = "act-1";
  approval_id = "apr-approval|process";
  decision_id = "rd-1";
  action_type = "process";
  action_name = "terminate";
  target = "pid 7";
  parameters = "";
  status = approved;
  earlier = awaiting_approval ∷ planned ∷ [];
  execution_started_at = none;
  execution_finished_at = none;
  result = none;
  error = none;
  snapshot_id = none;
  verification_id = none;
  rollback_id = none;
  updated_at = 0;
}

abbrev devices : Devices
devices = record { kill_switch = KillSwitch.init; breakers = []; limiter = RateLimiter.init 10 50 }

abbrev before : Backend String
before = record {
  attempts = ("act-1", attempt) ∷ [];
  database = run plain plain same_text script empty;
  devices = devices;
  executed = [];
  audit = [];
}

abbrev session : Session
session = record { has_table = some true; switch_rows = ok [] }

abbrev moment : Moment
moment = record {
  session = session;
  checked_at = 90;
  breaker_clock = some 91;
  limiter_clock = some 92;
  started_at = 93;
  finished_at = 94;
  outcome_clock = some 95;
}

abbrev runs : ℕ
runs = length (execute plain same_text registry "act-1" moment before).executed

runs_once : runs ≡ 1
unfolding execute_action found_attempt past_validation gated registered run_action after_execution
    closing verified verify_action run apply create_approval_request create_with_id approve_request
    validate_for_execution find_request compute_approval_id write_status has_record
    pre_execution_safety through_breaker limit get_breaker or_new_breaker is_blocked_combined
    is_persisted_active is_valid_key table_exists row_active first_row is_blocked
    CircuitBreaker.init allow_action evaluate_state check_and_record prune RateLimiter.init
    validate_state_transition valid_action_transitions record_breaker_outcome feed record_success
    lookup insert first_chars has_length_within get_action register_action
runs_once = refl

has_run : (execute plain same_text registry "act-1" moment before).executed ≢ before.executed
has_run same = omega (arith, ap (λ x. length x) same, runs_once)

finds : lookup "act-1" before.attempts ≡ some attempt
unfolding lookup
finds = refl

executed_needs_approval_example :
    (attempt.status ≡ approved)
    × ((gate_of attempt moment before).0 ≡ none)
    × ((r : ApprovalRequest String) × (find_request attempt.approval_id before.database.requests
          ≡ some r)
        × (recorded r.id before.database.approvals ≡ true)
        × Permits same_text r "rd-1" "pid 7" "process" 90)
executed_needs_approval_example =
    executed_needs_approval plain same_text registry plain script "act-1" moment before attempt refl
      finds has_run

execute_once_example :
    execute plain same_text registry "act-1" moment
      (execute plain same_text registry "act-1" moment before)
    ≡ execute plain same_text registry "act-1" moment before
execute_once_example =
    execute_once plain same_text registry "act-1" moment moment before attempt finds refl has_run

abbrev new_breaker : CircuitBreaker
new_breaker = CircuitBreaker.init 5 300000000 "process"

gets_breaker : get_breaker "process" devices.breakers ≡ some new_breaker
unfolding get_breaker or_new_breaker lookup first_chars has_length_within
gets_breaker = refl

pre_execution_safety_lem_example :
    let after = pre_execution_safety session "process" (some 91) (some 92) devices in
    let blocked = (is_blocked_combined session "process" devices.kill_switch).0 in
    ((after.0 ≡ none) ↔ (
      (blocked ≡ false)
      × ((allow_action new_breaker (some 91)).0 ≡ true)
      × ((check_and_record "process" (some 92) devices.limiter).0.0 ≡ true)))
    × ((blocked ≡ true)
        → (after.1.breakers ≡ devices.breakers) × (after.1.limiter ≡ devices.limiter))
    × (((allow_action new_breaker (some 91)).0 ≡ false) → after.1.limiter ≡ devices.limiter)
pre_execution_safety_lem_example =
    pre_execution_safety_lem session "process" (some 91) (some 92) devices new_breaker gets_breaker

execute-IsLegal_example :
    IsLegal
      (history attempt)
      "act-1"
      (execute_action plain same_text registry "act-1" moment before)
    × (validate_state_transition approved blocked ≡ false)
execute-IsLegal_example =
    execute-IsLegal plain same_text registry "act-1" moment before attempt finds refl
