-- ===== src/Automation/V5/Scope.antt =====
-- Scopes and the matching of rules in guardian/automation/policy_v5.py.
use cyber_sage.Prelude.{
  has_slash, ℕ, ◌+◌, ◌-◌, String, Bool, true, false, not, ◌&&◌, ◌||◌, Option, none, some, List, [],
  ◌∷◌, leb, if◌then◌else◌, length, ◌==◌,
}
use cyber_sage.Prelude.Dict.{Dict, lookup}
use cyber_sage.Prelude.TextOrder.{starts_with}
use cyber_sage.Prelude.Sorting.{any}
use cyber_sage.Automation.Policy.{matches_text, matches_severity}
use cyber_sage.Automation.V5.Rules.{Texts, Scope, Value, text, PolicyRuleV5}

-- The points of one dimension.
abbrev pub key_score : List String → ℕ
key_score [] = 0
key_score (v ∷ vs) = 10 + (10 - length (v ∷ vs))

unfoldable pub dimensions_score : Scope → ℕ
dimensions_score [] = 0
dimensions_score ((key, values) ∷ scope) = key_score values + dimensions_score scope

-- The sum does not depend on the order of the keys, which the source sorts.
unfoldable pub scope_specificity : Option Scope → ℕ
scope_specificity none = 0
scope_specificity (some scope) = dimensions_score scope

-- `scope.get(key) or []`
unfoldable pub entries_of : Scope → String → List String
entries_of scope key = elim (lookup key scope) [ none ↦ [] | some entries ↦ entries ]

-- The kinds of comparison.
pub data Matcher : Type 0 where
  exact prefix ip : Matcher

-- The dimensions in the order in which they are checked: the key of the scope, the field of the
-- target and the matcher.
abbrev pub checks : List (String × String × Matcher)
checks =
    ("host_ids", "host_id", exact)
    ∷ ("agent_keys", "agent_key", exact)
    ∷ ("destination_ips", "destination_ip", ip)
    ∷ ("process_names", "process_name", exact)
    ∷ ("persistence_types", "persistence_type", exact)
    ∷ ("persistence_paths", "persistence_path", prefix)
    ∷ ("file_paths", "file_path", prefix)
    ∷ ("user_names", "user_name", exact)
    ∷ []

module _ (t : Texts) where
  unfoldable pub entry_has_ip : t.Address → String → Bool
  entry_has_ip target entry =
      if has_slash entry
      then elim (t.ip_network entry) [ none ↦ false | some network ↦ t.contains network target ]
      else elim (t.ip_address entry) [ none ↦ false | some address ↦ t.same_address target address ]

  unfoldable pub match_ip : {J : Type 0} → List String → Option (Value J) → Bool
  match_ip scope_entries (some (text target_ip)) =
      if target_ip == "" then false else elim (t.ip_address target_ip) [
        | none ↦ false
        | some target ↦ any (entry_has_ip target) scope_entries
      ]
  match_ip scope_entries _ = false

  unfoldable pub match_ci_exact : {J : Type 0} → List String → Option (Value J) → Bool
  match_ci_exact scope_entries (some (text target_value)) =
      if target_value == ""
      then false
      else any (λ (entry : String). t.lower entry == t.lower target_value) scope_entries
  match_ci_exact scope_entries _ = false

  unfoldable pub match_ci_prefix : {J : Type 0} → List String → Option (Value J) → Bool
  match_ci_prefix scope_entries (some (text target_value)) =
      if target_value == ""
      then false
      else any
          (λ (entry : String).
            t.lower target_value == t.lower entry
            || starts_with (t.lower target_value) (t.lower entry))
          scope_entries
  match_ci_prefix scope_entries _ = false

  unfoldable pub match_by : {J : Type 0} → Matcher → List String → Option (Value J) → Bool
  match_by exact = match_ci_exact
  match_by prefix = match_ci_prefix
  match_by ip = match_ip

  -- `if entries and not matcher(entries, target_value)`, negated
  unfoldable pub passes_check : {J : Type 0} → Matcher → List String → Option (Value J) → Bool
  passes_check matcher [] value = true
  passes_check matcher (e ∷ es) value = match_by matcher (e ∷ es) value

  unfoldable pub pass_checks :
      {J : Type 0} → List (String × String × Matcher) → Scope → Dict (Value J) → Bool
  pass_checks [] scope target = true
  pass_checks ((key, name, matcher) ∷ rest) scope target =
      if not (passes_check matcher (entries_of scope key) (lookup name target))
      then false
      else pass_checks rest scope target

  unfoldable pub scope_matches_target : {J : Type 0} → Option Scope → Dict (Value J) → Bool
  scope_matches_target none target = true
  scope_matches_target (some []) target = true
  scope_matches_target (some (d ∷ scope)) target = pass_checks checks (d ∷ scope) target

  unfoldable pub rule_matches :
      {J : Type 0}
      → PolicyRuleV5
      → (action_type action_name : String) (risk_score : ℕ) (incident_severity : String)
      → Dict (Value J)
      → Bool
  rule_matches rule action_type action_name risk_score incident_severity target =
      if not (matches_text rule.action_type action_type)
      then false
      else if not (matches_text rule.action_name action_name)
      then false
      else if not (leb rule.min_risk_score risk_score && leb risk_score rule.max_risk_score)
      then false
      else if not (matches_severity rule.incident_severity incident_severity)
      then false
      else scope_matches_target rule.target_scope target
