-- ===== src/Automation/Envelope/Samples.antt =====
-- A policy, a request and a setting for the tests of the gates. All targets have the
-- same JSON text, and there are no addresses.
use cyber_sage.Prelude.{ℕ, true, false, none, some, [], ◌∷◌, ok, err, nat_eq}
use cyber_sage.Prelude.Dict.{Dict}
use cyber_sage.Prelude.Sorting.{}
use cyber_sage.Prelude.TextOrder.{}
use cyber_sage.Safety.KillSwitch
use cyber_sage.Safety.KillSwitch.{is_blocked}
use cyber_sage.Safety.RateLimiter
use cyber_sage.Safety.RateLimiter.{check_and_record, prune}
use cyber_sage.Safety.CircuitBreaker.{}
use cyber_sage.Actions.Registry.{register_action}
use cyber_sage.Approval.Tables
use cyber_sage.Approval.Tables.{Database, find_request}
use cyber_sage.Approval.Manager.{}
use cyber_sage.Execution.Gates.{}
use cyber_sage.Execution.State.{RegisteredAction}
use cyber_sage.Automation.Policy.{approval_required, require_approval}
use cyber_sage.Automation.V5.Rules.{
  Texts, pre_authorized, Value, text, PolicyRuleV5, AutomationPolicyV5,
}
use cyber_sage.Automation.V5.Scope.{}
use cyber_sage.Automation.V5.Validation.{}
use cyber_sage.Automation.V5.Precedence.{}
use cyber_sage.Automation.V5.Collecting.{}
use cyber_sage.Automation.V5.Evaluation.{}
use cyber_sage.Automation.Envelope.State.{EnvelopeRequest, World, Setting}
use cyber_sage.Automation.Envelope.Checks.{}
use cyber_sage.Automation.Envelope.Authority.{}
use cyber_sage.Automation.Envelope.Gates.{}
use cyber_sage.Automation.Envelope.Report.{}
use cyber_sage.Automation.Envelope.Requirements.{}
use cyber_sage.Automation.Envelope.Authorized.{}

abbrev pub texts : Texts
texts = record {
  lower = λ s. s;
  Address = ℕ;
  Network = ℕ;
  ip_address = λ s. none;
  ip_network = λ s. none;
  same_address = nat_eq;
  contains = λ n a. false;
  overlaps = λ n m. false;
  subnet_of = λ n m. none;
}

abbrev pub rule : PolicyRuleV5
rule = record {
  rule_id = "r1";
  description = "";
  action_type = "process";
  action_name = "*";
  min_risk_score = 0;
  max_risk_score = 100;
  incident_severity = none;
  decision = require_approval;
  requires_approval = true;
  priority = 1;
  target_scope = none;
  approval_mode = pre_authorized;
  max_executions_per_hour = none;
  cooldown_seconds = none;
}

abbrev pub policy : AutomationPolicyV5
policy = record {
  policy_id = "p1";
  name = "p";
  description = "";
  mode = approval_required;
  enabled = true;
  version = 1;
  priority = 1;
  expires_at = none;
  rules = rule ∷ [];
  created_at = 0;
  updated_at = 0;
}

abbrev pub terminate : RegisteredAction (Dict (Value ℕ)) ℕ
terminate = record {
  validate = λ target parameters. (true, []);
  requires_snapshot = false;
  snapshot = λ target action_id. none;
  execute = λ target parameters snap. err "not run";
  verify = λ target r. err "not run";
  rollback = record { rollback_supported = false; rollback = λ target snap. err "not supported" };
}

abbrev pub registry : Dict (RegisteredAction (Dict (Value ℕ)) ℕ)
registry = register_action "process" "terminate" terminate []

abbrev pub request : EnvelopeRequest ℕ
request = record {
  policy_id = "p1";
  expected_policy_version = 1;
  action_type = "process";
  action_name = "terminate";
  target = ("host_id", text "h1") ∷ [];
  decision_id = "rd-1";
  approval_id = some "apr-1";
  risk_score = 80;
  incident_severity = "high";
  incident_id = none;
  event_ids = [];
  evaluation_id = none;
  parameters = [];
  agent_key = none;
  correlation_id = none;
  requested_by = "system";
  authorization_mode = "approved_manual";
  host_id = none;
}

abbrev pub setting : Setting ℕ ℕ
setting = record {
  texts = texts;
  sha256_hex = λ s. s;
  dumps = λ target. "{}";
  same_json = λ a b. true;
  point = 1;
  tables = record {
    policies = policy ∷ [];
    evaluations = [];
    runs = [];
    grants = [];
    session = record { has_table = some true; switch_rows = ok [] };
    registry = registry;
  };
  clocks = record {
    active_at = 60;
    evaluated_at = 61;
    breaker_clock = some 62;
    limiter_clock = some 63;
    cooldown_at = 64;
    covered_at = 65;
    frequency_at = 66;
    approved_at = 67;
  };
}

abbrev pub database : Database (Dict (Value ℕ))
database = record {
  requests =
      record {
        id = 1;
        approval_id = "apr-1";
        incident_id = none;
        decision_id = "rd-1";
        requested_action = "terminate_process";
        action_type = "process";
        target = request.target;
        rationale = "";
        risk = none;
        status = Tables.approved;
        requested_by = "system";
        expires_at = 1000;
        created_at = 0;
        updated_at = 0;
      }
      ∷ [];
  approvals = [];
  next_id = 2;
}

abbrev pub world : World ℕ
world = record {
  devices = record {
    kill_switch = KillSwitch.init;
    breakers = [];
    limiter = RateLimiter.init 10 50;
  };
  database = database;
}
