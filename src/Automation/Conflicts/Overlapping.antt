-- ===== src/Automation/Conflicts/Overlapping.antt =====
-- Rules that match a common request overlap.
use cyber_sage.Prelude.{
  ℕ, String, ◌≡◌, refl, true, Option, none, some, List, [], ◌∷◌, arith, Option-cases, inl, inr, ◌↔◌,
  eq_iff, ◌≤◌,
}
use mathlib.Core.List.{}
use cyber_sage.Prelude.Dict.{Dict, lookup}
use cyber_sage.Prelude.TextOrder.{}
use cyber_sage.Prelude.Sorting.{}
use cyber_sage.Prelude.Sorting.Laws.{}
use cyber_sage.Automation.Policy.{matches_text, matches_severity}
use cyber_sage.Automation.V5.Rules.{Texts, Scope, Value, PolicyRuleV5}
use cyber_sage.Automation.V5.Scope.{
  Matcher, entries_of, passes_check, scope_matches_target, rule_matches,
}
use cyber_sage.Automation.Conflicts.Overlap.{
  selectors_meet, actions_overlap, risk_overlap, severity_overlap, scope_matchers,
  dimension_overlap, keys_overlap, or_empty, overlap_dicts, scope_overlap, rules_overlap,
}
use cyber_sage.Automation.Conflicts.Common.{IpLaws, check_of_matcher, scope_matches-Passes}
use cyber_sage.Automation.Conflicts.Sharing.{match_by-overlap}

module _ (t : Texts) where
  unconstrained : (xs ys : List String) → dimension_overlap t none xs ys ≡ true
  unfolding dimension_overlap
  unconstrained [] ys = refl
  unconstrained (x ∷ xs) [] = refl
  unconstrained (x ∷ xs) (y ∷ ys) = refl

  passes_check-overlap :
      {J : Type 0} (laws : IpLaws t) (m : Matcher) (xs ys : List String) (v : Option (Value J))
      → passes_check t m xs v ≡ true
      → passes_check t m ys v ≡ true
      → dimension_overlap t (some m) xs ys ≡ true
  unfolding passes_check dimension_overlap
  passes_check-overlap laws m [] ys v h g = refl
  passes_check-overlap laws m (x ∷ xs) [] v h g = refl
  passes_check-overlap laws m (x ∷ xs) (y ∷ ys) v h g =
      match_by-overlap t laws (x ∷ xs) (y ∷ ys) v m h g

  dicts_meet : (a b : Scope) → keys_overlap t a a b ≡ true → overlap_dicts t a b ≡ true
  unfolding overlap_dicts
  dicts_meet [] b h = refl
  dicts_meet (d ∷ a) [] h = refl
  dicts_meet (d ∷ a) (e ∷ b) h = h

  module _ {J : Type 0} (laws : IpLaws t) (target : Dict (Value J)) (a b : Option Scope)
      (in_a : scope_matches_target t a target ≡ true)
      (in_b : scope_matches_target t b target ≡ true) where
    dimension_meets :
        (key : String)
        → dimension_overlap t
            (lookup key scope_matchers)
            (entries_of (or_empty a) key)
            (entries_of (or_empty b) key)
          ≡ true
    dimension_meets key = elim (Option-cases (lookup key scope_matchers)) [
      | inl e ↦ rw e (unconstrained _ _)
      | inr (m, e) ↦
          let (name, c) = check_of_matcher key m e in
          rw e (
            passes_check-overlap laws m _ _ (lookup name target)
              (scope_matches-Passes t target a (key, name, m) c in_a)
              (scope_matches-Passes t target b (key, name, m) c in_b))
    ]

    keys_meet : (keys : Scope) → keys_overlap t keys (or_empty a) (or_empty b) ≡ true
    unfolding keys_overlap
    keys_meet [] = refl
    keys_meet ((key, values) ∷ keys) = ground (arith, dimension_meets key, keys_meet keys)

    -- Scopes that a target is in overlap.
    scopes_meet : scope_overlap t a b ≡ true
    unfolding scope_overlap
    scopes_meet = dicts_meet (or_empty a) (or_empty b) (keys_meet (or_empty a))

selectors-meet :
    (a b s : String) → matches_text a s ≡ true → matches_text b s ≡ true → selectors_meet a b ≡ true
selectors-meet a b s h g = ground (arith, eq_iff a s, eq_iff b s, eq_iff a b)

severities-meet :
    (a b : Option String) (s : String)
    → matches_severity a s ≡ true
    → matches_severity b s ≡ true
    → severity_overlap a b ≡ true
unfolding severity_overlap
severities-meet none b s h g = refl
severities-meet (some a) none s h g = refl
severities-meet (some a) (some b) s h g = ground (arith, eq_iff a s, eq_iff b s, eq_iff a b)

-- What a matching rule's tests say.
pub record MatchParts (t : Texts) {J : Type 0} (rule : PolicyRuleV5) (type name : String) (risk : ℕ)
    (severity : String) (target : Dict (Value J)) : Type 0 where
  pub type_matches : matches_text rule.action_type type ≡ true
  pub name_matches : matches_text rule.action_name name ≡ true
  pub risk_above : rule.min_risk_score ≤ risk
  pub risk_below : risk ≤ rule.max_risk_score
  pub severity_matches : matches_severity rule.incident_severity severity ≡ true
  pub scope_matches : scope_matches_target t rule.target_scope target ≡ true

module _ (t : Texts) {J : Type 0} (type name : String) (risk : ℕ) (severity : String)
    (target : Dict (Value J)) where
  pub rule_matches_iff :
      (rule : PolicyRuleV5)
      → (rule_matches t rule type name risk severity target ≡ true)
        ↔ MatchParts t rule type name risk severity target
  unfolding rule_matches
  rule_matches_iff rule = (
    λ h. record {
      type_matches = ground arith;
      name_matches = ground arith;
      risk_above = ground arith;
      risk_below = ground arith;
      severity_matches = ground arith;
      scope_matches = ground arith;
    },
    λ p. ground (
      arith, p.type_matches, p.name_matches, p.risk_above, p.risk_below, p.severity_matches,
      p.scope_matches,
    ),
  )

  -- Two rules that match a common action, risk, severity and target are found to overlap, where
  -- networks with a common address do.
  pub rules_overlap-common :
      IpLaws t
      → (rule_a rule_b : PolicyRuleV5) → rule_matches t rule_a type name risk severity target ≡ true
      → rule_matches t rule_b type name risk severity target ≡ true
      → rules_overlap t rule_a rule_b ≡ true
  unfolding rules_overlap actions_overlap risk_overlap
  rules_overlap-common laws a b ha hb =
      let p = (rule_matches_iff a).0 ha in
      let q = (rule_matches_iff b).0 hb in
      ground (
        arith,
        selectors-meet a.action_type b.action_type type p.type_matches q.type_matches,
        selectors-meet a.action_name b.action_name name p.name_matches q.name_matches,
        p.risk_above,
        p.risk_below,
        q.risk_above,
        q.risk_below,
        severities-meet a.incident_severity b.incident_severity severity p.severity_matches
            q.severity_matches,
        scopes_meet t laws target a.target_scope b.target_scope p.scope_matches q.scope_matches,
      )
