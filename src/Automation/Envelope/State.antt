-- ===== src/Automation/Envelope/State.antt =====
-- The requests, gates, statuses and tables of guardian/automation/envelope.py. A target and the
-- parameters of an action are dictionaries; a table is a list of rows, as far as they are read.
use Prim.Native.String.{slice}
use cyber_sage.Prelude.{
  concat, ℕ, String, Bool, true, false, not, ◌||◌, Option, none, some, List, [], ◌∷◌, Result,
  if◌then◌else◌, ◌==◌, has_length_within, leb, length, ◌>>◌, guard, ◌*◌,
}
use cyber_sage.Prelude.Dict.{Dict}
use cyber_sage.Actions.Registry.{is_registered}
use cyber_sage.Approval.Tables.{Database}
use cyber_sage.Approval.Manager.{Invalid}
use cyber_sage.Execution.Gates.{Session, Devices}
use cyber_sage.Execution.State.{RegisteredAction}
use cyber_sage.Automation.V5.Rules.{Texts, Value, AutomationPolicyV5}
use cyber_sage.Automation.V5.Validation.{has_length_of, is_severity}
use cyber_sage.Automation.Envelope.Grants.{Grant, GrantReason}

pub data EnvelopeStatus : Type 0 where
  safety_check executing verifying verification_failed execution_failed : EnvelopeStatus
  rollback_available rollback_requested rolling_back : EnvelopeStatus
  succeeded rolled_back rollback_failed blocked : EnvelopeStatus

unfoldable pub envelope_transitions : EnvelopeStatus → List EnvelopeStatus
envelope_transitions safety_check = executing ∷ blocked ∷ []
envelope_transitions executing = verifying ∷ execution_failed ∷ blocked ∷ []
envelope_transitions verifying = succeeded ∷ verification_failed ∷ execution_failed ∷ []
envelope_transitions verification_failed = rollback_available ∷ rollback_failed ∷ []
envelope_transitions execution_failed = rollback_available ∷ rollback_failed ∷ []
envelope_transitions rollback_available = rollback_requested ∷ blocked ∷ []
envelope_transitions rollback_requested = rolling_back ∷ []
envelope_transitions rolling_back = rolled_back ∷ rollback_failed ∷ []
envelope_transitions succeeded = []
envelope_transitions rolled_back = []
envelope_transitions rollback_failed = []
envelope_transitions blocked = []

abbrev pub is_blocked_status : EnvelopeStatus → Bool
is_blocked_status blocked = true
is_blocked_status _ = false

pub data GateName : Type 0 where
  policy_active policy_version identity kill_switch_global kill_switch_scoped : GateName
  circuit_breaker rate_limit cooldown target_validation : GateName
  policy_authorization preauth_authorization approval : GateName

abbrev pub gate_order : List GateName
gate_order =
    policy_active ∷ policy_version ∷ identity ∷ kill_switch_global ∷ kill_switch_scoped
    ∷ circuit_breaker ∷ rate_limit ∷ cooldown ∷ target_validation ∷ policy_authorization
    ∷ preauth_authorization ∷ approval ∷ []

-- The reasons of the gates. Of the details there is only why an approval does not serve.
pub data GateReason : Type 0 where
  skipped_after_failure : GateReason
  policy_not_found policy_not_active policy_is_active : GateReason
  stale_policy_version version_match : GateReason
  evaluation_not_found identity_mismatch stale_evaluation_version : GateReason
  identity_verified no_evaluation_binding : GateReason
  kill_switch_active kill_switch_clear : GateReason
  circuit_breaker_open circuit_breaker_error circuit_breaker_closed : GateReason
  rate_limit_exceeded rate_limit_ok : GateReason
  cooldown_active max_frequency_exceeded cooldown_clear : GateReason
  action_not_registered target_invalid target_valid : GateReason
  deny_overrides_approval authorized_pre_authorized_rule_noted authorized : GateReason
  no_preauthorized_rule manual_path_preauth_not_applicable : GateReason
  grant_refuses : GrantReason → GateReason
  grant_authorizes : GateReason
  approval_not_required approval_missing approval_valid : GateReason
  approval_invalid : Option Invalid → GateReason

pub record GateResult : Type 0 where
  pub gate : GateName
  pub passed : Bool
  pub reason : GateReason

pub record EnvelopeRequest (J : Type 0) : Type 0 where
  pub policy_id : String
  pub expected_policy_version : ℕ
  pub action_type : String
  pub action_name : String
  pub target : Dict (Value J)
  pub decision_id : String
  pub approval_id : Option String
  pub risk_score : ℕ
  pub incident_severity : String
  pub incident_id : Option ℕ
  pub event_ids : List String
  pub evaluation_id : Option String
  pub parameters : Dict (Value J)
  pub agent_key : Option String
  pub correlation_id : Option String
  pub requested_by : String
  pub authorization_mode : String
  pub host_id : Option String

-- Rows of `guardian_policy_evaluations` and `guardian_envelope_runs`.
pub record EvaluationRow (J : Type 0) : Type 0 where
  pub evaluation_id : String
  pub policy_id : Option String
  pub policy_version : Option ℕ
  pub incident_id : Option ℕ
  pub action_type : String
  pub action_name : String
  pub target : Dict (Value J)

pub record RunRow : Type 0 where
  pub policy_id : String
  pub target_hash : String
  pub status : EnvelopeStatus
  pub created_at : ℕ

-- What the gates read.
pub record Tables (J S : Type 0) : Type 0 where
  pub policies : List AutomationPolicyV5
  pub evaluations : List (EvaluationRow J)
  pub runs : List RunRow
  pub grants : List Grant
  pub session : Session
  pub registry : Dict (RegisteredAction (Dict (Value J)) S)

-- What they may change.
pub record World (J : Type 0) : Type 0 where
  pub devices : Devices
  pub database : Database (Dict (Value J))

-- The readings of the clocks, in the order in which they are taken.
pub record Clocks : Type 0 where
  pub active_at : ℕ
  pub evaluated_at : ℕ
  pub breaker_clock : Option ℕ
  pub limiter_clock : Option ℕ
  pub cooldown_at : ℕ
  pub covered_at : ℕ
  pub frequency_at : ℕ
  pub approved_at : ℕ

-- All that the gates read: the library of texts, SHA-256, a target's JSON text, the comparison of two targets
-- by their JSON texts, one point of a risk score, the tables and the clocks.
pub record Setting (J S : Type 0) : Type 1 where
  pub texts : Texts
  pub sha256_hex : String → String
  pub dumps : Dict (Value J) → String
  pub same_json : Dict (Value J) → Dict (Value J) → Bool
  pub point : ℕ
  pub tables : Tables J S
  pub clocks : Clocks

unfoldable pub canonical_target_hash :
    {J : Type 0}
    → (sha256_hex : String → String) (dumps : Dict (Value J) → String) → Dict (Value J)
    → String
canonical_target_hash sha256_hex dumps target =
    concat ("tgt-" ∷ slice (sha256_hex (dumps target)) 0 32 ∷ [])

abbrev pub hash_of : {J S : Type 0} → Setting J S → Dict (Value J) → String
hash_of s = canonical_target_hash s.sha256_hex s.dumps

-- `(request.authorization_mode or "approved_manual").lower()`
unfoldable pub mode_of : {J : Type 0} → Texts → EnvelopeRequest J → String
mode_of t request =
    t.lower
      (if request.authorization_mode == "" then "approved_manual" else request.authorization_mode)

pub data RequestError : Type 0 where
  policy_id_length version_range not_registered wildcard decision_id_length : RequestError
  mode_unknown approval_id_required approval_id_length : RequestError
  risk_score_range severity_unknown too_many_event_ids : RequestError

-- The identifier that an approved manual execution needs, and the one that a bounded one may have.
abbrev pub approval_id_given : Option String → Bool
approval_id_given none = false
approval_id_given (some id) = has_length_of 128 id

abbrev pub approval_id_short : Option String → Bool
approval_id_short none = true
approval_id_short (some id) = has_length_within 128 id

abbrev pub approval_id_checked : (manual : Bool) → Option String → Result RequestError (Unit {0})
approval_id_checked true id = guard (approval_id_given id) approval_id_required
approval_id_checked false id = guard (approval_id_short id) approval_id_length

unfoldable pub validate_envelope_request :
    {J S : Type 0} → Texts → ℕ → Tables J S → EnvelopeRequest J → Result RequestError (Unit {0})
validate_envelope_request t point tables request = do
  guard (has_length_of 128 request.policy_id) policy_id_length
  guard (leb 1 request.expected_policy_version) version_range
  guard (is_registered tables.registry request.action_type request.action_name) not_registered
  guard (not (request.action_type == "*" || request.action_name == "*")) wildcard
  guard (has_length_of 128 request.decision_id) decision_id_length
  guard (mode_of t request == "approved_manual" || mode_of t request == "preauthorized_bounded")
      mode_unknown
  approval_id_checked (mode_of t request == "approved_manual") request.approval_id
  guard (leb request.risk_score (100 * point)) risk_score_range
  guard (is_severity request.incident_severity) severity_unknown
  guard (leb (length request.event_ids) 100) too_many_event_ids
