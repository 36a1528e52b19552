-- ===== src/Automation/V5/Rules.antt =====
-- The policies, requests and results of guardian/automation/policy_v5.py. Values have the types
-- that the classes declare. A risk score is only compared, so it is a natural number in any fixed
-- fraction of a point, and `point` is the number of these; a priority is natural, as validation
-- demands; times are microseconds. `J` stands for the values that are not texts. What the standard
-- library does with letter case and with network addresses is a parameter.
use cyber_sage.Prelude.{ℕ, String, Bool, false, Option, none, some, List, leb}
use cyber_sage.Prelude.Dict.{Dict}
use cyber_sage.Automation.Policy.{AutomationMode, PolicyDecision}

pub data ApprovalMode : Type 0 where
  required pre_authorized : ApprovalMode

-- `str.lower` and `ipaddress`: the parsers answer nothing where they raise ValueError, and
-- `subnet_of` where it raises TypeError.
pub record Texts : Type 1 where
  pub lower : String → String
  pub Address : Type 0
  pub Network : Type 0
  pub ip_address : String → Option Address
  pub ip_network : String → Option Network
  pub same_address : Address → Address → Bool
  pub contains : Network → Address → Bool
  pub overlaps : Network → Network → Bool
  pub subnet_of : Network → Network → Option Bool

abbrev pub Scope : Type 0
Scope = Dict (List String)

-- A value of a target.
pub data Value (J : Type 0) : Type 0 where
  text : String → Value J
  other : J → Value J

pub record PolicyRuleV5 : Type 0 where
  pub rule_id : String
  pub description : String
  pub action_type : String
  pub action_name : String
  pub min_risk_score : ℕ
  pub max_risk_score : ℕ
  pub incident_severity : Option String
  pub decision : PolicyDecision
  pub requires_approval : Bool
  pub priority : ℕ
  pub target_scope : Option Scope
  pub approval_mode : ApprovalMode
  pub max_executions_per_hour : Option ℕ
  pub cooldown_seconds : Option ℕ

pub record AutomationPolicyV5 : Type 0 where
  pub policy_id : String
  pub name : String
  pub description : String
  pub mode : AutomationMode
  pub enabled : Bool
  pub version : ℕ
  pub priority : ℕ
  pub expires_at : Option ℕ
  pub rules : List PolicyRuleV5
  pub created_at : ℕ
  pub updated_at : ℕ

unfoldable pub is_expired : AutomationPolicyV5 → ℕ → Bool
is_expired policy now = elim policy.expires_at [ none ↦ false | some t ↦ leb t now ]

pub record EvaluationRequest (J : Type 0) : Type 0 where
  pub action_type : String
  pub action_name : String
  pub target : Dict (Value J)
  pub risk_score : ℕ
  pub incident_severity : String
  pub incident_id : Option ℕ
  pub event_ids : List String
  pub requested_by : String
  pub correlation_id : Option String

-- What the explanation of a result is rendered from.
pub data Explanation : Type 0 where
  blocked_by_switch no_policy_matched : Explanation
  blocked_by_rule : (rule_id policy_id : String) (version overridden : ℕ) → Explanation
  would :
      (would_require_approval : Bool) (rule_id policy_id : String) (version specificity : ℕ)
      → Explanation

pub record EvaluationResult : Type 0 where
  pub decision : PolicyDecision
  pub reason : String
  pub matched_policy_id : Option String
  pub matched_policy_version : Option ℕ
  pub matched_rule_id : Option String
  pub approval_mode : ApprovalMode
  pub would_require_approval : Bool
  pub would_execute : Bool
  pub blocked_reason : Option String
  pub safety_checks : List String
  pub evaluated_policies : ℕ
  pub candidate_rules : ℕ
  pub scope_specificity : ℕ
  pub explanation : Explanation
