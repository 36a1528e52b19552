-- ===== src/Automation/Conflicts/Overlap.antt =====
-- The overlap tests of guardian/automation/conflicts.py.
use cyber_sage.Prelude.{
  has_slash, String, Bool, true, false, not, ◌&&◌, ◌||◌, Option, none, some, List, [], ◌∷◌, leb,
  min, max, ℕ, if◌then◌else◌, ◌==◌,
}
use cyber_sage.Prelude.Dict.{Dict, lookup}
use cyber_sage.Prelude.TextOrder.{starts_with}
use cyber_sage.Prelude.Sorting.{any}
use cyber_sage.Automation.V5.Rules.{Texts, Scope, PolicyRuleV5}
use cyber_sage.Automation.V5.Scope.{Matcher, exact, prefix, ip, entries_of}

abbrev pub selectors_meet : String → String → Bool
selectors_meet a b = a == "*" || b == "*" || a == b

unfoldable pub actions_overlap : (type_a name_a type_b name_b : String) → Bool
actions_overlap type_a name_a type_b name_b =
    selectors_meet type_a type_b && selectors_meet name_a name_b

unfoldable pub risk_overlap : (min_a max_a min_b max_b : ℕ) → Bool
risk_overlap min_a max_a min_b max_b = leb (max min_a min_b) (min max_a max_b)

unfoldable pub severity_overlap : Option String → Option String → Bool
severity_overlap none b = true
severity_overlap (some a) none = true
severity_overlap (some a) (some b) = a == b

-- The table of matchers by the key of a scope.
abbrev pub scope_matchers : Dict Matcher
scope_matchers =
    ("host_ids", exact)
    ∷ ("agent_keys", exact)
    ∷ ("process_names", exact)
    ∷ ("user_names", exact)
    ∷ ("persistence_types", exact)
    ∷ ("persistence_paths", prefix)
    ∷ ("file_paths", prefix)
    ∷ ("destination_ips", ip)
    ∷ []

-- `scope or {}`
abbrev pub or_empty : Option Scope → Scope
or_empty none = []
or_empty (some scope) = scope

module _ (t : Texts) where
  pub data IpEntry : Type 0 where
    address : t.Address → IpEntry
    network : t.Network → IpEntry

  unfoldable pub ip_entry_to_network : String → Option IpEntry
  ip_entry_to_network entry =
      if has_slash entry
      then elim (t.ip_network entry) [ none ↦ none | some n ↦ some (network n) ]
      else elim (t.ip_address entry) [ none ↦ none | some a ↦ some (address a) ]

  unfoldable pub entries_meet : IpEntry → IpEntry → Bool
  entries_meet (address a) (address b) = t.same_address a b
  entries_meet (network n) (address b) = t.contains n b
  entries_meet (address a) (network m) = t.contains m a
  entries_meet (network n) (network m) = t.overlaps n m

  -- An entry that is not valid meets none.
  abbrev pub parsed_meet : Option IpEntry → Option IpEntry → Bool
  parsed_meet (some a) (some b) = entries_meet a b
  parsed_meet _ _ = false

  unfoldable pub ip_entries_overlap : (entries_a entries_b : List String) → Bool
  ip_entries_overlap entries_a entries_b =
      any
        (λ (a : String).
          any (λ (b : String). parsed_meet (ip_entry_to_network a) (ip_entry_to_network b))
            entries_b)
        entries_a

  unfoldable pub overlap_ci_exact : (entries_a entries_b : List String) → Bool
  overlap_ci_exact entries_a entries_b =
      any (λ (a : String). any (λ (b : String). t.lower b == t.lower a) entries_b) entries_a

  unfoldable pub overlap_ci_prefix : (entries_a entries_b : List String) → Bool
  overlap_ci_prefix entries_a entries_b =
      any
        (λ (a : String).
          any
            (λ (b : String).
              t.lower a == t.lower b
              || starts_with (t.lower a) (t.lower b)
              || starts_with (t.lower b) (t.lower a))
            entries_b)
        entries_a

  unfoldable pub overlap_by : Matcher → (entries_a entries_b : List String) → Bool
  overlap_by exact = overlap_ci_exact
  overlap_by prefix = overlap_ci_prefix
  overlap_by ip = ip_entries_overlap

  -- What the loop finds of one dimension: it passes where a side does not constrain it and where the
  -- key has no matcher.
  unfoldable pub dimension_overlap : Option Matcher → (entries_a entries_b : List String) → Bool
  dimension_overlap m [] entries_b = true
  dimension_overlap m (e ∷ es) [] = true
  dimension_overlap none (e ∷ es) (f ∷ fs) = true
  dimension_overlap (some m) (e ∷ es) (f ∷ fs) = overlap_by m (e ∷ es) (f ∷ fs)

  -- The loop over the keys of `a`: a key that `b` lacks has no entries there and passes.
  unfoldable pub keys_overlap : (keys a b : Scope) → Bool
  keys_overlap [] a b = true
  keys_overlap ((key, values) ∷ keys) a b =
      if not (dimension_overlap (lookup key scope_matchers) (entries_of a key) (entries_of b key))
      then false
      else keys_overlap keys a b

  unfoldable pub overlap_dicts : (a b : Scope) → Bool
  overlap_dicts [] b = true
  overlap_dicts (d ∷ a) [] = true
  overlap_dicts (d ∷ a) (e ∷ b) = keys_overlap (d ∷ a) (d ∷ a) (e ∷ b)

  unfoldable pub scope_overlap : (scope_a scope_b : Option Scope) → Bool
  scope_overlap scope_a scope_b = overlap_dicts (or_empty scope_a) (or_empty scope_b)

  unfoldable pub rules_overlap : (rule_a rule_b : PolicyRuleV5) → Bool
  rules_overlap rule_a rule_b =
      if not (
        actions_overlap rule_a.action_type rule_a.action_name rule_b.action_type rule_b.action_name)
      then false
      else if not (
          risk_overlap rule_a.min_risk_score rule_a.max_risk_score rule_b.min_risk_score
            rule_b.max_risk_score)
      then false
      else if not (severity_overlap rule_a.incident_severity rule_b.incident_severity)
      then false
      else scope_overlap rule_a.target_scope rule_b.target_scope
