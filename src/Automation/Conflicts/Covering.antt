-- ===== src/Automation/Conflicts/Covering.antt =====
-- A rule whose match set is found to be a subset of another's matches only what that one matches.
use cyber_sage.Prelude.{
  ℕ, String, ◌≡◌, refl, sym, subst, true, Option, none, some, List, [], ◌∷◌, arith, Option-cases,
  inl, inr, eq_iff,
}
use mathlib.Core.List.{Memᴰ}
use cyber_sage.Prelude.Dict.{Dict, lookup}
use cyber_sage.Prelude.TextOrder.{}
use cyber_sage.Prelude.Sorting.{}
use cyber_sage.Prelude.Sorting.Laws.{}
use cyber_sage.Automation.Policy.{matches_text, matches_severity}
use cyber_sage.Automation.V5.Rules.{Texts, Scope, Value, PolicyRuleV5}
use cyber_sage.Automation.V5.Scope.{
  Matcher, entries_of, passes_check, checks, scope_matches_target, rule_matches,
}
use cyber_sage.Automation.Conflicts.Overlap.{scope_matchers, or_empty}
use cyber_sage.Automation.Conflicts.Subset.{
  dimension_subset, keys_subset, subset_dicts, scope_is_subset, severity_subset, action_is_subset,
  rule_match_subset,
}
use cyber_sage.Automation.Conflicts.Common.{
  IpLaws, Check, Passes, lookup-Memᴰ, matcher_of_check, scope_matches-Passes, Passes-scope_matches,
}
use cyber_sage.Automation.Conflicts.Overlapping.{rule_matches_iff}
use cyber_sage.Automation.Conflicts.Sharing.{}
use cyber_sage.Automation.Conflicts.Containing.{match_by-subset}

entries_of-none :
    (scope : Scope) (key : String) → lookup key scope ≡ none → entries_of scope key ≡ []
unfolding entries_of
entries_of-none scope key e = ground (arith, e)

entries_of-some :
    (scope : Scope) (key : String) (es : List String)
    → lookup key scope ≡ some es
    → entries_of scope key ≡ es
unfolding entries_of
entries_of-some scope key es e = ground (arith, e)

module _ (t : Texts) where
  passes_check-subset :
      {J : Type 0} (laws : IpLaws t) (m : Matcher) (inner outer : List String)
      (v : Option (Value J))
      → dimension_subset t (some m) inner outer ≡ true
      → passes_check t m inner v ≡ true
      → passes_check t m outer v ≡ true
  unfolding dimension_subset passes_check
  passes_check-subset laws m inner [] v h g = refl
  passes_check-subset laws m [] (o ∷ os) v h g = absurd (ground (arith, h))
  passes_check-subset laws m (i ∷ is) (o ∷ os) v h g =
      match_by-subset t laws (i ∷ is) (o ∷ os) m v h g

  keys_subset-elim :
      (inner outer : Scope) (d : String × List String)
      → Memᴰ d outer
      → keys_subset t inner outer ≡ true
      → dimension_subset t (lookup d.0 scope_matchers) (entries_of inner d.0) d.1 ≡ true
  unfolding keys_subset
  keys_subset-elim inner [] d m h = elim m [ ]
  keys_subset-elim inner ((k, es) ∷ outer) d (Memᴰ.head e) h =
      subst
        (λ (c : String × List String).
          dimension_subset t (lookup c.0 scope_matchers) (entries_of inner c.0) c.1 ≡ true)
        (sym e) (ground (arith, h))
  keys_subset-elim inner ((k, es) ∷ outer) d (Memᴰ.tail m) h =
      keys_subset-elim inner outer d m (ground (arith, h))

  subset_dicts-keys :
      (inner outer : Scope) → subset_dicts t inner outer ≡ true → keys_subset t inner outer ≡ true
  unfolding subset_dicts
  subset_dicts-keys inner [] h = unfold keys_subset in refl
  subset_dicts-keys [] (o ∷ outer) h = absurd (ground (arith, h))
  subset_dicts-keys (i ∷ inner) (o ∷ outer) h = h

  module _ {J : Type 0} (laws : IpLaws t) (target : Dict (Value J)) (inner outer : Option Scope)
      (covered : scope_is_subset t inner outer ≡ true) where
    Passes-subset :
        (c : Check)
        → Memᴰ c checks
        → Passes t target (or_empty inner) c
        → Passes t target (or_empty outer) c
    unfolding scope_is_subset
    Passes-subset c m h = elim (Option-cases (lookup c.0 (or_empty outer))) [
      | inl e ↦ rw (entries_of-none (or_empty outer) c.0 e) (unfold passes_check in refl)
      | inr (es, e) ↦ rw (entries_of-some (or_empty outer) c.0 es e) (
          passes_check-subset laws c.2 _ es (lookup c.1 target)
            (subst (λ k. dimension_subset t k (entries_of (or_empty inner) c.0) es ≡ true)
              (matcher_of_check c m)
              (keys_subset-elim (or_empty inner) (or_empty outer) (c.0, es)
                (lookup-Memᴰ c.0 (or_empty outer) es e)
                (subset_dicts-keys (or_empty inner) (or_empty outer) covered)))
            h)
    ]

    scope_matches-subset :
        scope_matches_target t inner target ≡ true → scope_matches_target t outer target ≡ true
    scope_matches-subset h =
        Passes-scope_matches t target outer
          (λ c m. Passes-subset c m (scope_matches-Passes t target inner c m h))

selector-subset :
    (i o s : String) → matches_text o i ≡ true → matches_text i s ≡ true → matches_text o s ≡ true
selector-subset i o s h g =
    ground (arith, eq_iff o "*", eq_iff o i, eq_iff i s, eq_iff i "*", eq_iff o s)

severity-subset :
    (i o : Option String) (s : String)
    → severity_subset i o ≡ true
    → matches_severity i s ≡ true
    → matches_severity o s ≡ true
severity-subset i none s h g = refl
severity-subset none (some w) s h g = absurd (ground (arith, h))
severity-subset (some v) (some w) s h g = ground (arith, eq_iff w v, eq_iff v s, eq_iff w s)

-- Whatever a rule matches is matched by every rule that it is found to be a subset of, where a
-- subnet's addresses are in its network.
pub rule_matches-subset :
    (t : Texts) {J : Type 0}
    → IpLaws t
    → (inner outer : PolicyRuleV5) (type name : String) (risk : ℕ) (severity : String)
      (target : Dict (Value J))
    → rule_match_subset t inner outer ≡ true
    → rule_matches t inner type name risk severity target ≡ true
    → rule_matches t outer type name risk severity target ≡ true
unfolding rule_match_subset action_is_subset
rule_matches-subset t laws inner outer type name risk severity target h g =
    let p = (rule_matches_iff t type name risk severity target inner).0 g in
    (rule_matches_iff t type name risk severity target outer).1 (record {
      type_matches =
          selector-subset inner.action_type outer.action_type type (ground (arith, h))
            p.type_matches;
      name_matches =
          selector-subset inner.action_name outer.action_name name (ground (arith, h))
            p.name_matches;
      risk_above = ground (arith, h, p.risk_above);
      risk_below = ground (arith, h, p.risk_below);
      severity_matches =
          severity-subset inner.incident_severity outer.incident_severity severity
            (ground (arith, h)) p.severity_matches;
      scope_matches =
          scope_matches-subset t laws target inner.target_scope outer.target_scope
            (ground (arith, h)) p.scope_matches;
    })
