-- ===== src/Automation/V5/Validation.antt =====
-- The validators of guardian/automation/policy_v5.py. What an `isinstance` of a declared type tests
-- is the type of the argument here. `point` is one point of a risk score, and `known` what the
-- registry of actions lists.
use Prim.Native.Char.{code}
use cyber_sage.Prelude.{
  has_slash, ℕ, zero, suc, ◌*◌, String, Bool, true, false, not, ◌&&◌, ◌||◌, Option, none, some,
  List, [], ◌∷◌, leb, nat_eq, if◌then◌else◌, is_some, length, ◌==◌, has_length_within, has_dots,
  Result, ok, ◌>>=◌, ◌>>◌, guard, each,
}
use cyber_sage.Prelude.Dict.{insert}
use cyber_sage.Prelude.Sorting.{any}
use cyber_sage.Automation.V5.Rules.{
  Texts, Scope, PolicyRuleV5, AutomationPolicyV5, EvaluationRequest,
}

pub data PolicyValidationError : Type 0 where
  rule_id_invalid policy_id_invalid action_type_length action_name_length : PolicyValidationError
  name_length description_length version_range priority_range : PolicyValidationError
  unknown_action_type unknown_action_name : String → PolicyValidationError
  risk_range risk_score_range severity_unknown : PolicyValidationError
  executions_range too_many_rules too_many_event_ids event_id_invalid : PolicyValidationError
  duplicate_rule_id unknown_scope_key too_many_entries : String → PolicyValidationError
  entry_invalid : String → PolicyValidationError
  ip_invalid path_traversal : (key entry : String) → PolicyValidationError

abbrev Check : Type 0
Check = Result PolicyValidationError Unit

abbrev is_id_char : ℕ → Bool
is_id_char c =
    (leb b'A' c && leb c b'Z')
    || (leb b'a' c && leb c b'z')
    || (leb b'0' c && leb c b'9')
    || nat_eq c b'_'
    || nat_eq c b'-'

-- `$` lets one newline at the end through.
abbrev is_end : ℕ → String → Bool
is_end c s = nat_eq c 10 && s == ""

id_rest : ℕ → String → Bool
id_rest n String.[] = true
id_rest zero (String.◌∷◌ c s) = is_end (code c) s
id_rest (suc n) (String.◌∷◌ c s) = if is_id_char (code c) then id_rest n s else is_end (code c) s

-- `^[A-Za-z0-9_-]{1,128}$`
unfoldable pub matches_id : String → Bool
unfolding id_rest
matches_id String.[] = false
matches_id (String.◌∷◌ c s) = is_id_char (code c) && id_rest 127 s

abbrev pub is_severity : String → Bool
is_severity s = s == "low" || s == "medium" || s == "high" || s == "critical"

abbrev pub is_scope_key : String → Bool
is_scope_key key =
    any (λ (k : String). k == key)
      ("host_ids" ∷ "agent_keys" ∷ "destination_ips" ∷ "process_names" ∷ "persistence_types"
        ∷ "persistence_paths" ∷ "file_paths" ∷ "user_names" ∷ [])

-- `1 <= len(text) <= n`
abbrev pub has_length_of : ℕ → String → Bool
has_length_of n s = not (s == "") && has_length_within n s

abbrev pub severity_valid : Option String → Bool
severity_valid none = true
severity_valid (some s) = is_severity s

-- `value is not None and value < n`, negated
abbrev pub at_least : ℕ → Option ℕ → Bool
at_least n none = true
at_least n (some value) = leb n value

-- The kind's part of the registered actions, and the error that the kind raises.
abbrev pub require_registered_or_wildcard :
    (String × String → String)
    → (String → PolicyValidationError)
    → List (String × String)
    → String
    → Check
require_registered_or_wildcard part error known value =
    guard (value == "*" || any (λ (a : String × String). part a == value) known) (error value)

abbrev pub is_path_key : String → Bool
is_path_key key = key == "persistence_paths" || key == "file_paths"

abbrev pub entry_valid : String → String → Check
entry_valid key entry = guard (has_length_of 512 entry) (entry_invalid key)

abbrev pub path_valid : String → String → Check
path_valid key entry =
    guard (not (is_path_key key) || not (has_dots entry)) (path_traversal key entry)

-- `if cleaned: normalized[key] = cleaned`
abbrev pub keep : String → List String → Scope → Scope
keep key [] normalized = normalized
keep key (e ∷ es) normalized = insert key (e ∷ es) normalized

module _ (t : Texts) where
  abbrev pub is_ip_entry : String → Bool
  is_ip_entry entry =
      if has_slash entry then is_some (t.ip_network entry) else is_some (t.ip_address entry)

  abbrev pub ip_valid : String → String → Check
  ip_valid key entry =
      guard (not (key == "destination_ips") || is_ip_entry entry) (ip_invalid key entry)

  -- The checks of one dimension.
  unfoldable pub dimension_valid : String → List String → Check
  dimension_valid key values = do
    guard (is_scope_key key) (unknown_scope_key key)
    guard (leb (length values) 100) (too_many_entries key)
    each (entry_valid key) values
    each (ip_valid key) values
    each (path_valid key) values

  unfoldable pub normalize : Scope → Scope → Result PolicyValidationError Scope
  normalize [] normalized = ok normalized
  normalize ((key, values) ∷ scope) normalized = do
    dimension_valid key values
    normalize scope (keep key values normalized)

  unfoldable pub validate_scope : Option Scope → Result PolicyValidationError Scope
  validate_scope none = ok []
  validate_scope (some scope) = normalize scope []

  -- The rule with its normalized scope, which the source writes into the rule.
  unfoldable pub validate_rule :
      ℕ → List (String × String) → PolicyRuleV5 → Result PolicyValidationError PolicyRuleV5
  validate_rule point known rule = do
    guard (matches_id rule.rule_id) rule_id_invalid
    guard (has_length_of 64 rule.action_type) action_type_length
    guard (has_length_of 64 rule.action_name) action_name_length
    require_registered_or_wildcard (λ a. a.0) unknown_action_type known rule.action_type
    require_registered_or_wildcard (λ a. a.1) unknown_action_name known rule.action_name
    guard (leb rule.min_risk_score rule.max_risk_score && leb rule.max_risk_score (100 * point))
        risk_range
    guard (severity_valid rule.incident_severity) severity_unknown
    guard (leb rule.priority 1000) priority_range
    guard (at_least 1 rule.max_executions_per_hour) executions_range
    scope ← validate_scope rule.target_scope
    ok (record rule { target_scope = some scope })

  -- The rules are checked in turn, each against the identifiers before it.
  unfoldable pub validate_rules :
      ℕ
      → List (String × String)
      → List PolicyRuleV5
      → List String
      → Result PolicyValidationError (List PolicyRuleV5)
  validate_rules point known [] seen = ok []
  validate_rules point known (rule ∷ rules) seen = do
    valid ← validate_rule point known rule
    guard (not (any (λ (id : String). id == rule.rule_id) seen)) (duplicate_rule_id rule.rule_id)
    rest ← validate_rules point known rules (rule.rule_id ∷ seen)
    ok (valid ∷ rest)

  -- The policy with its rules' scopes normalized.
  unfoldable pub validate_policy :
      ℕ
      → List (String × String)
      → AutomationPolicyV5
      → Result PolicyValidationError AutomationPolicyV5
  validate_policy point known policy = do
    guard (matches_id policy.policy_id) policy_id_invalid
    guard (has_length_of 255 policy.name) name_length
    guard (has_length_within 4096 policy.description) description_length
    guard (leb 1 policy.version) version_range
    guard (leb policy.priority 1000) priority_range
    guard (leb (length policy.rules) 100) too_many_rules
    rules ← validate_rules point known policy.rules []
    ok (record policy { rules = rules })

unfoldable pub validate_request : {J : Type 0} → ℕ → EvaluationRequest J → Check
validate_request point request = do
  guard (has_length_of 64 request.action_type) action_type_length
  guard (has_length_of 64 request.action_name) action_name_length
  guard (leb request.risk_score (100 * point)) risk_score_range
  guard (is_severity request.incident_severity) severity_unknown
  guard (leb (length request.event_ids) 100) too_many_event_ids
  each (λ (event_id : String). guard (has_length_of 256 event_id) event_id_invalid)
      request.event_ids
