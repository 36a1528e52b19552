-- ===== src/Automation/Conflicts/Subset.antt =====
-- The tests of shadowing in guardian/automation/conflicts.py.
use cyber_sage.Prelude.{
  String, Bool, true, false, not, ◌&&◌, ◌||◌, Option, none, some, List, [], ◌∷◌, leb, if◌then◌else◌,
  ◌==◌,
}
use cyber_sage.Prelude.Dict.{lookup}
use cyber_sage.Prelude.TextOrder.{starts_with}
use cyber_sage.Prelude.Sorting.{any, all}
use cyber_sage.Automation.Policy.{matches_text}
use cyber_sage.Automation.V5.Rules.{Texts, Scope, PolicyRuleV5}
use cyber_sage.Automation.V5.Scope.{Matcher, exact, prefix, ip, entries_of}
use cyber_sage.Automation.Conflicts.Overlap.{
  IpEntry, address, network, ip_entry_to_network, scope_matchers, or_empty,
}

abbrev pub holds : Option Bool → Bool
holds (some b) = b
holds none = false

-- `outer.incident_severity is not None and outer != inner`, negated
abbrev pub severity_subset : (inner outer : Option String) → Bool
severity_subset inner none = true
severity_subset none (some s) = false
severity_subset (some r) (some s) = s == r

unfoldable pub action_is_subset : (inner_type inner_name outer_type outer_name : String) → Bool
action_is_subset inner_type inner_name outer_type outer_name =
    matches_text outer_type inner_type && matches_text outer_name inner_name

module _ (t : Texts) where
  unfoldable pub subset_ci_exact : (inner outer : List String) → Bool
  subset_ci_exact inner outer =
      all (λ (e : String). any (λ (o : String). t.lower o == t.lower e) outer) inner

  unfoldable pub subset_ci_prefix : (inner outer : List String) → Bool
  subset_ci_prefix inner outer =
      all
        (λ (e : String).
          any (λ (o : String). t.lower e == t.lower o || starts_with (t.lower e) (t.lower o)) outer)
        inner

  unfoldable pub entry_covers : (outer inner : Option (IpEntry t)) → Bool
  entry_covers (some (address a)) (some (address b)) = t.same_address a b
  entry_covers (some (network n)) (some (address b)) = t.contains n b
  entry_covers (some (network n)) (some (network m)) = holds (t.subnet_of m n)
  entry_covers _ _ = false

  unfoldable pub ip_covers : (outer_entry inner_entry : String) → Bool
  ip_covers outer_entry inner_entry =
      entry_covers (ip_entry_to_network t outer_entry) (ip_entry_to_network t inner_entry)

  unfoldable pub subset_ips : (inner outer : List String) → Bool
  subset_ips inner outer = all (λ (i : String). any (λ (o : String). ip_covers o i) outer) inner

  unfoldable pub subset_by : Option Matcher → (inner outer : List String) → Bool
  subset_by (some exact) inner outer = subset_ci_exact inner outer
  subset_by (some prefix) inner outer = subset_ci_prefix inner outer
  subset_by (some ip) inner outer = subset_ips inner outer
  subset_by none inner outer = false

  -- One key of the outer scope; the keys are grouped as in the table of matchers.
  unfoldable pub dimension_subset : Option Matcher → (inner outer : List String) → Bool
  dimension_subset m inner [] = true
  dimension_subset m [] (o ∷ os) = false
  dimension_subset m (i ∷ is) (o ∷ os) = subset_by m (i ∷ is) (o ∷ os)

  unfoldable pub keys_subset : (inner outer : Scope) → Bool
  keys_subset inner [] = true
  keys_subset inner ((key, outer_entries) ∷ outer) =
      if not (dimension_subset (lookup key scope_matchers) (entries_of inner key) outer_entries)
      then false
      else keys_subset inner outer

  unfoldable pub subset_dicts : (inner outer : Scope) → Bool
  subset_dicts inner [] = true
  subset_dicts [] (o ∷ outer) = false
  subset_dicts (i ∷ inner) (o ∷ outer) = keys_subset (i ∷ inner) (o ∷ outer)

  unfoldable pub scope_is_subset : (inner outer : Option Scope) → Bool
  scope_is_subset inner outer = subset_dicts (or_empty inner) (or_empty outer)

  unfoldable pub rule_match_subset : (inner outer : PolicyRuleV5) → Bool
  rule_match_subset inner outer =
      if not
        (action_is_subset inner.action_type inner.action_name outer.action_type outer.action_name)
      then false
      else if not (
          leb outer.min_risk_score inner.min_risk_score
          && leb inner.max_risk_score outer.max_risk_score)
      then false
      else if not (severity_subset inner.incident_severity outer.incident_severity)
      then false
      else scope_is_subset inner.target_scope outer.target_scope
