-- ===== src/Automation/Envelope/Granting.antt =====
-- Validation of a grant in guardian/automation/preauth.py, and `activate_grant` and `revoke_grant` of
-- guardian/automation/preauth_store.py. What an `isinstance` of a declared type tests is the type of
-- the argument here, and an integer that would be refused for its sign does not occur. `from_iso`
-- reads an ISO text, and `point` is one point of a risk score.
use cyber_sage.Prelude.{
  ℕ, ◌*◌, String, Bool, true, false, not, ◌&&◌, ◌||◌, Option, none, some, List, [], ◌∷◌, ltb, leb,
  if◌then◌else◌, is_some, length, ◌==◌, Result, ok, err, ◌>>=◌, ◌>>◌, guard, each,
}
use cyber_sage.Prelude.Dict.{Dict}
use cyber_sage.Prelude.Sorting.{any}
use cyber_sage.Actions.Registry.{is_registered}
use cyber_sage.Automation.V5.Rules.{Texts, Scope, AutomationPolicyV5}
use cyber_sage.Automation.V5.Validation.{PolicyValidationError, has_length_of, validate_scope}
use cyber_sage.Automation.V5.Scope.{}
use cyber_sage.Automation.Envelope.Grants.{
  Grant, Eligibility, find_preauth_rule, policy_supports_preauth, get_grant, is_empty,
}
use cyber_sage.Automation.Envelope.Gates.{get_policy}

pub data GrantError : Type 0 where
  policy_id_length no_actions too_many_actions action_type_length action_name_length : GrantError
  wildcard never_authorizable not_registered duplicate_action : String × String → GrantError
  scope_refused : PolicyValidationError → GrantError
  no_target_scope risk_range executions_range cooldown_range : GrantError
  expiry_not_iso expiry_missing expiry_past gates_differ reason_length : GrantError
  policy_missing grant_missing : GrantError
  not_eligible : Eligibility → GrantError
  no_rule : String × String → GrantError

-- What a payload may hold as its expiry.
pub data Expiry : Type 0 where
  no_expiry : Expiry
  moment : ℕ → Expiry
  iso_text : String → Expiry

pub record GrantPayload : Type 0 where
  pub policy_id : String
  pub allowed_actions : List (String × String)
  pub target_scope : Option Scope
  pub agent_scope : Option Scope
  pub max_risk_score : ℕ
  pub max_executions_per_hour : ℕ
  pub cooldown_seconds : ℕ
  pub expires_at : Expiry
  pub safety_gates : List String
  pub reason : String
  pub rollback_required : Bool

-- The normalized copy.
pub record Bounds : Type 0 where
  pub policy_id : String
  pub allowed_actions : List (String × String)
  pub target_scope : Scope
  pub agent_scope : Scope
  pub max_risk_score : ℕ
  pub max_executions_per_hour : ℕ
  pub cooldown_seconds : ℕ
  pub expires_at : ℕ
  pub safety_gates : List String
  pub reason : String
  pub rollback_required : Bool

abbrev pub required_safety_gates : List String
required_safety_gates =
    "policy_active" ∷ "policy_version" ∷ "identity" ∷ "kill_switch_global" ∷ "kill_switch_scoped"
    ∷ "circuit_breaker" ∷ "rate_limit" ∷ "cooldown" ∷ "target_validation" ∷ "policy_authorization"
    ∷ "preauth_authorization" ∷ "approval" ∷ []

abbrev pub same_action : String × String → String × String → Bool
same_action a b = a.0 == b.0 && a.1 == b.1

abbrev pub forbidden_preauth_actions : List (String × String)
forbidden_preauth_actions = ("process", "*") ∷ ("network", "*") ∷ ("persistence", "*") ∷ []

abbrev pub same_texts : List String → List String → Bool
same_texts [] [] = true
same_texts (a ∷ rest) (b ∷ others) = a == b && same_texts rest others
same_texts _ _ = false

-- `payload.get("safety_gates") or list(REQUIRED_SAFETY_GATES)`
abbrev pub gates_given : List String → List String
gates_given [] = required_safety_gates
gates_given (g ∷ gs) = g ∷ gs

-- `payload.get("agent_scope") or {}`
abbrev pub scope_given : Option Scope → Scope
scope_given none = []
scope_given (some scope) = scope

abbrev pub read_expiry : (from_iso : String → Option ℕ) → Expiry → Result GrantError ℕ
read_expiry from_iso no_expiry = err expiry_missing
read_expiry from_iso (moment n) = ok n
read_expiry from_iso (iso_text s) = elim (from_iso s) [ none ↦ err expiry_not_iso | some n ↦ ok n ]

abbrev pub scope_checked : Result PolicyValidationError Scope → Result GrantError Scope
scope_checked (ok scope) = ok scope
scope_checked (err e) = err (scope_refused e)

module _ {A : Type 0} (registry : Dict A) where
  -- The checks of one entry.
  unfoldable pub action_checked :
      (seen : List (String × String)) → String × String → Result GrantError (Unit {0})
  action_checked seen action = do
    guard (has_length_of 64 action.0) action_type_length
    guard (has_length_of 64 action.1) action_name_length
    guard (not (action.0 == "*" || action.1 == "*")) (wildcard action)
    guard (not (any (same_action action) forbidden_preauth_actions)) (never_authorizable action)
    guard (is_registered registry action.0 action.1) (not_registered action)
    guard (not (any (same_action action) seen)) (duplicate_action action)

  unfoldable pub check_actions :
      (seen actions : List (String × String)) → Result GrantError (List (String × String))
  check_actions seen [] = ok []
  check_actions seen (action ∷ actions) = do
    action_checked seen action
    cleaned ← check_actions (action ∷ seen) actions
    ok (action ∷ cleaned)

  unfoldable pub validate_allowed_actions :
      List (String × String) → Result GrantError (List (String × String))
  validate_allowed_actions actions = do
    guard (leb 1 (length actions)) no_actions
    guard (leb (length actions) 25) too_many_actions
    check_actions [] actions

  unfoldable pub validate_grant_bounds :
      Texts
      → (from_iso : String → Option ℕ) (point now : ℕ) → GrantPayload
      → Result GrantError Bounds
  validate_grant_bounds t from_iso point now payload = do
    guard (has_length_of 128 payload.policy_id) policy_id_length
    allowed_actions ← validate_allowed_actions payload.allowed_actions
    target_scope ← scope_checked (validate_scope t payload.target_scope)
    guard (not (is_empty target_scope)) no_target_scope
    agent_scope ← scope_checked (validate_scope t (some (scope_given payload.agent_scope)))
    guard (leb payload.max_risk_score (100 * point)) risk_range
    guard (leb 1 payload.max_executions_per_hour && leb payload.max_executions_per_hour 1000)
        executions_range
    guard (leb payload.cooldown_seconds 86400) cooldown_range
    expires_at ← read_expiry from_iso payload.expires_at
    guard (ltb now expires_at) expiry_past
    guard (same_texts (gates_given payload.safety_gates) required_safety_gates) gates_differ
    guard (has_length_of 2048 payload.reason) reason_length
    ok record {
      policy_id = payload.policy_id;
      allowed_actions = allowed_actions;
      target_scope = target_scope;
      agent_scope = agent_scope;
      max_risk_score = payload.max_risk_score;
      max_executions_per_hour = payload.max_executions_per_hour;
      cooldown_seconds = payload.cooldown_seconds;
      expires_at = expires_at;
      safety_gates = gates_given payload.safety_gates;
      reason = payload.reason;
      rollback_required = payload.rollback_required;
    }

-- Every allowed action has a PRE_AUTHORIZED rule in the policy.
abbrev pub has_rule : AutomationPolicyV5 → String × String → Result GrantError (Unit {0})
has_rule policy action =
    guard (is_some (find_preauth_rule policy.rules action.0 action.1)) (no_rule action)

abbrev pub eligible : Bool × Eligibility → Result GrantError (Unit {0})
eligible (supported, reason) = guard supported (not_eligible reason)

-- What an activation sets, of a new row and of one that is there.
abbrev pub grant_of :
    (created_at now : ℕ) → (activated_by : String) → AutomationPolicyV5 → Bounds → Grant
grant_of created_at now activated_by policy bounds = record {
  policy_id = bounds.policy_id;
  policy_version = policy.version;
  active = true;
  allowed_actions = bounds.allowed_actions;
  agent_scope = bounds.agent_scope;
  target_scope = bounds.target_scope;
  max_risk_score = bounds.max_risk_score;
  max_executions_per_hour = bounds.max_executions_per_hour;
  cooldown_seconds = bounds.cooldown_seconds;
  expires_at = some bounds.expires_at;
  safety_gates = bounds.safety_gates;
  rollback_required = bounds.rollback_required;
  reason = some bounds.reason;
  activated_by = some activated_by;
  activated_at = some now;
  revoked_by = none;
  revoked_at = none;
  revoke_reason = none;
  created_at = created_at;
  updated_at = now;
}

-- The row of the policy is updated where it stands, or added.
unfoldable pub store_grant : ℕ → String → AutomationPolicyV5 → Bounds → List Grant → List Grant
store_grant now activated_by policy bounds [] = grant_of now now activated_by policy bounds ∷ []
store_grant now activated_by policy bounds (grant ∷ grants) =
    if grant.policy_id == bounds.policy_id
    then grant_of grant.created_at now activated_by policy bounds ∷ grants
    else grant ∷ store_grant now activated_by policy bounds grants

abbrev pub revoked : ℕ → String → String → Grant → Grant
revoked now revoked_by reason grant = record grant {
  active = false;
  revoked_by = some revoked_by;
  revoked_at = some now;
  revoke_reason = some reason;
  updated_at = now;
}

unfoldable pub store_revoked : ℕ → (revoked_by reason policy_id : String) → List Grant → List Grant
store_revoked now revoked_by reason policy_id [] = []
store_revoked now revoked_by reason policy_id (grant ∷ grants) =
    if grant.policy_id == policy_id
    then revoked now revoked_by reason grant ∷ grants
    else grant ∷ store_revoked now revoked_by reason policy_id grants

abbrev pub found : {A : Type 0} → GrantError → Option A → Result GrantError A
found e none = err e
found e (some a) = ok a

-- Past the validation of the payload. Where it raises, no row is written.
unfoldable pub activate_bounds :
    (eligible_at now : ℕ) (activated_by : String)
    → List AutomationPolicyV5
    → List Grant
    → Bounds
    → Result GrantError (List Grant)
activate_bounds eligible_at now activated_by policies grants bounds = do
  policy ← found policy_missing (get_policy bounds.policy_id policies)
  eligible (policy_supports_preauth policy eligible_at)
  each (has_rule policy) bounds.allowed_actions
  ok (store_grant now activated_by policy bounds grants)

-- The three readings of the clock are in the order in which they are taken.
unfoldable pub activate_grant :
    {A : Type 0}
    → Dict A
    → Texts
    → (from_iso : String → Option ℕ) (point : ℕ)
    → (validated_at eligible_at now : ℕ) (activated_by : String) → GrantPayload
    → List AutomationPolicyV5
    → List Grant
    → Result GrantError (List Grant)
activate_grant registry t from_iso point validated_at eligible_at now activated_by payload policies
      grants =
    validate_grant_bounds registry t from_iso point validated_at payload
    >>= activate_bounds eligible_at now activated_by policies grants

unfoldable pub revoke_grant :
    ℕ → (policy_id revoked_by reason : String) → List Grant → Result GrantError (List Grant)
revoke_grant now policy_id revoked_by reason grants = do
  guard (has_length_of 128 policy_id) policy_id_length
  guard (has_length_of 2048 reason) reason_length
  guard (is_some (get_grant policy_id grants)) grant_missing
  ok (store_revoked now revoked_by reason policy_id grants)
