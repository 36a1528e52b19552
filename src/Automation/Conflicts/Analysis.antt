-- ===== src/Automation/Conflicts/Analysis.antt =====
-- `analyze_policy_conflicts` of guardian/automation/conflicts.py. A finding keeps the two policies
-- and rules where the source copies fields of them, and the explanation and the
-- severities are left out; the digest
-- that identifies a finding is a parameter.
use cyber_sage.Prelude.{
  ℕ, String, Bool, true, false, not, ◌&&◌, Option, none, some, List, [], ◌∷◌, ◌++◌, min, max,
  if◌then◌else◌, map, select,
}
use cyber_sage.Prelude.Dict.{lookup}
use cyber_sage.Prelude.TextOrder.{text_leb, text_leb_total, text_leb_trans}
use cyber_sage.Prelude.Sorting.{Precedence, sort_by}
use cyber_sage.Automation.Policy.{PolicyDecision, allow, deny, require_approval, only_prepare}
use cyber_sage.Automation.V5.Rules.{Texts, Scope, PolicyRuleV5, AutomationPolicyV5, is_expired}
use cyber_sage.Automation.V5.Scope.{entries_of}
use cyber_sage.Automation.V5.Precedence.{by_text, key_leb, by_policy_id}
use cyber_sage.Automation.V5.Collecting.{Candidate, candidate, is_deny, is_disabled}
use cyber_sage.Automation.Conflicts.Overlap.{scope_matchers, or_empty, overlap_by, rules_overlap}
use cyber_sage.Automation.Conflicts.Subset.{rule_match_subset}

unfoldable pub policy_is_active : AutomationPolicyV5 → ℕ → Bool
policy_is_active policy now =
    if not policy.enabled
    then false
    else if is_disabled policy.mode
    then false
    else if is_expired policy now
    then false
    else true

pub data Kind : Type 0 where
  deny_conflict dormant_overlap redundant_overlap precedence_shadow : Kind

pub data Cause : Type 0 where
  deny_overrides_non_deny dormant_policy_overlap : Cause
  same_decision_overlap_advisory higher_precedence_wins : Cause

pub data Severity : Type 0 where
  high medium low : Severity

pub record Finding : Type 0 where
  pub conflict_id : String
  pub kind : Kind
  pub is_conflict : Bool
  pub runtime_impact : Bool
  pub severity : Severity
  pub first : Candidate
  pub second : Candidate
  pub active_first : Bool
  pub active_second : Bool
  pub risk_low : ℕ
  pub risk_high : ℕ
  pub scope_keys : List String
  pub winner : Candidate
  pub loser : Candidate
  pub cause : Cause
  pub full_coverage : Bool
  pub ambiguous : Bool

abbrev pub same_decision : PolicyDecision → PolicyDecision → Bool
same_decision allow allow = true
same_decision deny deny = true
same_decision require_approval require_approval = true
same_decision only_prepare only_prepare = true
same_decision _ _ = false

abbrev pub differ : Bool → Bool → Bool
differ true b = not b
differ false b = b

-- Winner, loser, kind and reason of an overlapping pair.
unfoldable pub precedence :
    (runtime : Bool) (a b : Candidate) → Candidate × Candidate × Kind × Cause
precedence runtime a b =
    if differ (is_deny a.rule.decision) (is_deny b.rule.decision)
    then (
      if is_deny a.rule.decision then a else b,
      if is_deny a.rule.decision then b else a,
      if runtime then deny_conflict else dormant_overlap,
      deny_overrides_non_deny,
    )
    else (
      if key_leb a.key b.key then a else b,
      if key_leb a.key b.key then b else a,
      if not runtime
          then dormant_overlap
          else if same_decision a.rule.decision b.rule.decision
          then redundant_overlap
          else precedence_shadow,
      if not runtime
          then dormant_policy_overlap
          else if same_decision a.rule.decision b.rule.decision
          then same_decision_overlap_advisory
          else higher_precedence_wins,
    )

abbrev pub severity_of : (is_conflict : Bool) → Kind → Severity
severity_of true kind = high
severity_of false redundant_overlap = low
severity_of false kind = medium

abbrev by_rule_id : Precedence PolicyRuleV5
by_rule_id = record {
  before = λ r s. text_leb r.rule_id s.rule_id;
  total = λ r s. text_leb_total r.rule_id s.rule_id;
  trans = λ r s u. text_leb_trans r.rule_id s.rule_id u.rule_id;
}

abbrev pub by_conflict_id : Precedence Finding
by_conflict_id = record {
  before = λ f g. text_leb f.conflict_id g.conflict_id;
  total = λ f g. text_leb_total f.conflict_id g.conflict_id;
  trans = λ f g h. text_leb_trans f.conflict_id g.conflict_id h.conflict_id;
}

-- A shared dimension whose entries overlap; a key with no matcher counts.
unfoldable pub shares_key : Texts → (a b : Scope) → String → Bool
shares_key t a b key = elim (entries_of a key) [
  | [] ↦ false
  | x ∷ xs ↦ elim (entries_of b key) [
    | [] ↦ false
    | y ∷ ys ↦ elim (lookup key scope_matchers) [
      | none ↦ true
      | some m ↦ overlap_by t m (x ∷ xs) (y ∷ ys)
    ]
  ]
]

unfoldable pub overlapping_scope_keys : Texts → (scope_a scope_b : Option Scope) → List String
overlapping_scope_keys t scope_a scope_b = sort_by by_text (
    select (shares_key t (or_empty scope_a) (or_empty scope_b)) (map (λ d. d.0) (or_empty scope_a)))

-- The rules of every policy, with the specificity of their scopes.
unfoldable pub flatten : List AutomationPolicyV5 → List Candidate
flatten [] = []
flatten (policy ∷ ordered) =
    map (candidate policy) (sort_by by_rule_id policy.rules) ++ flatten ordered

module _ (t : Texts) (conflict_id : (a b : Candidate) → Kind → String) where
  -- The finding of an overlapping pair, in the order of the flat list.
  unfoldable pub finding : (moment : ℕ) (a b : Candidate) → Finding
  finding moment a b =
      let active_a = policy_is_active a.policy moment in
      let active_b = policy_is_active b.policy moment in
      let runtime = active_a && active_b in
      let conflict = runtime && differ (is_deny a.rule.decision) (is_deny b.rule.decision) in
      let (winner, loser, kind, cause) = precedence runtime a b in
      let full = rule_match_subset t loser.rule winner.rule in
      record {
        conflict_id = conflict_id a b kind;
        kind = kind;
        is_conflict = conflict;
        runtime_impact = runtime;
        severity = severity_of conflict kind;
        first = a;
        second = b;
        active_first = active_a;
        active_second = active_b;
        risk_low = max a.rule.min_risk_score b.rule.min_risk_score;
        risk_high = min a.rule.max_risk_score b.rule.max_risk_score;
        scope_keys = overlapping_scope_keys t a.rule.target_scope b.rule.target_scope;
        winner = winner;
        loser = loser;
        cause = cause;
        full_coverage = full;
        ambiguous = runtime && not full;
      }

  -- The inner loop, over what follows `a`, and the outer one.
  unfoldable pub findings_from : ℕ → Candidate → List Candidate → List Finding
  findings_from moment a [] = []
  findings_from moment a (b ∷ flat) =
      let rest = findings_from moment a flat in
      if rules_overlap t a.rule b.rule then finding moment a b ∷ rest else rest

  unfoldable pub findings_of : ℕ → List Candidate → List Finding
  findings_of moment [] = []
  findings_of moment (a ∷ flat) = findings_from moment a flat ++ findings_of moment flat

  unfoldable pub analyze_policy_conflicts : List AutomationPolicyV5 → ℕ → List Finding
  analyze_policy_conflicts policies moment =
      sort_by by_conflict_id (findings_of moment (flatten (sort_by by_policy_id policies)))
