-- ===== src/Automation/Policy.antt =====
-- guardian/automation/policy.py. A risk score is only compared, so it is a natural number in any
-- fixed fraction of a point. `J` stands for JSON values; times are microseconds. Reasons are data
-- where the source renders them into a text.
use Prim.Native.String.{slice}
use cyber_sage.Prelude.{
  ℕ, String, Bool, true, false, not, Option, none, some, List, [], ◌∷◌, ◌&&◌, ◌||◌, ◌==◌, leb,
  if◌then◌else◌, concat,
}

pub data AutomationMode : Type 0 where
  disabled prepare_only approval_required : AutomationMode

pub data PolicyDecision : Type 0 where
  allow deny require_approval only_prepare : PolicyDecision

pub data AutomationRunStatus : Type 0 where
  pending running awaiting_approval approved executing succeeded failed cancelled blocked :
      AutomationRunStatus

pub record AutomationRule : Type 0 where
  pub rule_id : String
  pub description : String
  pub action_type : String
  pub action_name : String
  pub min_risk_score : ℕ
  pub max_risk_score : ℕ
  pub incident_severity : Option String
  pub decision : PolicyDecision
  pub requires_approval : Bool

pub record AutomationPolicy : Type 0 where
  pub policy_id : String
  pub name : String
  pub description : String
  pub mode : AutomationMode
  pub rules : List AutomationRule
  pub created_at : ℕ
  pub updated_at : ℕ
  pub enabled : Bool

pub record AutomationRunRequest (J : Type 0) : Type 0 where
  pub action_type : String
  pub action_name : String
  pub target : J
  pub incident_id : Option ℕ
  pub decision_id : String
  pub risk_score : ℕ
  pub incident_severity : String
  pub requested_by : String
  pub rationale : String
  pub policy_id : Option String
  pub parameters : J

pub data Reason : Type 0 where
  kill_switch_active policy_disabled policy_mode_disabled policy_mode_prepare_only : Reason
  rule_matched : String → Reason
  default_policy : Reason

pub data RunError : Type 0 where
  blocked_by_policy : Reason → RunError
  cancelled_for : String → RunError

pub record AutomationRun (J : Type 0) : Type 0 where
  pub run_id : String
  pub policy_id : Option String
  pub action_type : String
  pub action_name : String
  pub target : J
  pub incident_id : Option ℕ
  pub decision_id : String
  pub risk_score : ℕ
  pub incident_severity : String
  pub requested_by : String
  pub rationale : String
  pub status : AutomationRunStatus
  pub policy_decision : PolicyDecision
  pub requires_approval : Bool
  pub approval_id : Option String
  pub parameters : J
  pub created_at : ℕ
  pub updated_at : ℕ
  pub error : Option RunError
  pub result : Option J

-- `rule.action_type != "*" and rule.action_type != action_type`, negated
abbrev pub matches_text : String → String → Bool
matches_text selector text = selector == "*" || selector == text

abbrev pub matches_severity : Option String → String → Bool
matches_severity none severity = true
matches_severity (some wanted) severity = wanted == severity

unfoldable pub rule_matches :
    AutomationRule → (action_type action_name : String) → ℕ → String → Bool
rule_matches rule action_type action_name risk_score incident_severity =
    if not (matches_text rule.action_type action_type)
    then false
    else if not (matches_text rule.action_name action_name)
    then false
    else if not (leb rule.min_risk_score risk_score && leb risk_score rule.max_risk_score)
    then false
    else matches_severity rule.incident_severity incident_severity

-- `requires_approval` turns an ALLOW into a REQUIRE_APPROVAL.
abbrev pub guarded_decision : Bool → PolicyDecision → PolicyDecision
guarded_decision true allow = require_approval
guarded_decision _ d = d

unfoldable pub first_decision :
    List AutomationRule → (action_type action_name : String) → ℕ → String → PolicyDecision × Reason
first_decision [] action_type action_name risk severity = (require_approval, default_policy)
first_decision (rule ∷ rules) action_type action_name risk severity =
    if rule_matches rule action_type action_name risk severity
    then (guarded_decision rule.requires_approval rule.decision, rule_matched rule.rule_id)
    else first_decision rules action_type action_name risk severity

by_mode :
    AutomationMode
    → List AutomationRule
    → (action_type action_name : String) → ℕ
    → String
    → PolicyDecision × Reason
by_mode disabled rules t n risk severity = (deny, policy_mode_disabled)
by_mode prepare_only rules t n risk severity = (only_prepare, policy_mode_prepare_only)
by_mode approval_required rules t n risk severity = first_decision rules t n risk severity

unfoldable pub evaluate :
    AutomationPolicy
    → (action_type action_name : String) → ℕ
    → String
    → Bool
    → PolicyDecision × Reason
unfolding by_mode
evaluate policy action_type action_name risk_score incident_severity killed =
    if killed
    then (deny, kill_switch_active)
    else if not policy.enabled
    then (deny, policy_disabled)
    else by_mode policy.mode policy.rules action_type action_name risk_score incident_severity

-- `sha256` and the canonical JSON text of the four fields are parameters.
unfoldable pub compute_run_id :
    {J : Type 0}
    → (sha256_hex : String → String) → (dumps : String → String → J → String → String)
    → (action_type action_name : String) → J
    → String
    → String
compute_run_id sha256_hex dumps action_type action_name target decision_id =
    concat
      ("run-" ∷ slice (sha256_hex (dumps action_type action_name target decision_id)) 0 32 ∷ [])
