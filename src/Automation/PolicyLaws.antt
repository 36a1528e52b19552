-- ===== src/Automation/PolicyLaws.antt =====
-- When the policy of guardian/automation/policy.py lets an automated action through.
use cyber_sage.Prelude.{
  ℕ, String, ◌≤◌, ◌≡◌, ◌↔◌, ◌⊎◌, refl, Bool, true, false, Option, none, some, List, [], ◌∷◌, select,
  arith, eq_iff, Option-cases, ◌||◌, not, if◌then◌else◌, inl, inr,
}
use cyber_sage.Automation.Policy.{
  disabled, prepare_only, approval_required, PolicyDecision, allow, deny, require_approval,
  only_prepare, AutomationRule, AutomationPolicy, Reason, rule_matched, default_policy,
  rule_matches, guarded_decision, matches_text, matches_severity, first_decision, evaluate,
}

-- The rule covers the action, its risk and its severity.
pub record Covers (r : AutomationRule) (t n : String) (risk : ℕ) (severity : String) : Type 0 where
  pub type_selected : (r.action_type ≡ "*") ⊎ (r.action_type ≡ t)
  pub name_selected : (r.action_name ≡ "*") ⊎ (r.action_name ≡ n)
  pub risky_enough : r.min_risk_score ≤ risk
  pub not_too_risky : risk ≤ r.max_risk_score
  pub severity_selected : (r.incident_severity ≡ none) ⊎ (r.incident_severity ≡ some severity)

matches_text_iff : (s t : String) → (matches_text s t ≡ true) ↔ ((s ≡ "*") ⊎ (s ≡ t))
matches_text_iff s t =
    (ground (arith, eq_iff s "*", eq_iff s t), ground (arith, eq_iff s "*", eq_iff s t))

matches_severity_iff :
    (o : Option String) (s : String) → (matches_severity o s ≡ true) ↔ ((o ≡ none) ⊎ (o ≡ some s))
matches_severity_iff none s = (λ _. inl refl, λ _. refl)
matches_severity_iff (some w) s = (ground (arith, eq_iff w s), ground (arith, eq_iff w s))

-- A rule matches exactly the actions that its selectors, its closed range of risk and its severity
-- cover.
pub rule_matches_iff :
    (r : AutomationRule) (t n : String) (risk : ℕ) (severity : String)
    → (rule_matches r t n risk severity ≡ true) ↔ Covers r t n risk severity
unfolding rule_matches
rule_matches_iff r t n risk severity = (
  λ h. ground (
    arith,
    matches_text_iff r.action_type t,
    matches_text_iff r.action_name n,
    matches_severity_iff r.incident_severity severity,
  ),
  λ c. ground (
    arith,
    matches_text_iff r.action_type t,
    matches_text_iff r.action_name n,
    matches_severity_iff r.incident_severity severity,
  ),
)

abbrev pub first {ℓ} : {A : Type ℓ} → List A → Option A
first [] = none
first (x ∷ xs) = some x

-- The first rule that matches.
abbrev pub chosen_rule : List AutomationRule → (t n : String) → ℕ → String → Option AutomationRule
chosen_rule rules t n risk severity = first (select (λ r. rule_matches r t n risk severity) rules)

abbrev pub decided : Option AutomationRule → PolicyDecision × Reason
decided none = (require_approval, default_policy)
decided (some r) = (guarded_decision r.requires_approval r.decision, rule_matched r.rule_id)

first_decision-chosen_rule :
    (rules : List AutomationRule) (t n : String) (risk : ℕ) (severity : String)
    → first_decision rules t n risk severity ≡ decided (chosen_rule rules t n risk severity)
unfolding first_decision
first_decision-chosen_rule [] t n risk severity = refl
first_decision-chosen_rule (r ∷ rules) t n risk severity =
    ground (arith, first_decision-chosen_rule rules t n risk severity)

module _ (policy : AutomationPolicy) (t n : String) (risk : ℕ) (severity : String)
    (killed : Bool) where
  allowed-chosen_rule :
      (evaluate policy t n risk severity killed).0 ≡ allow
      → (r : AutomationRule) × (chosen_rule policy.rules t n risk severity ≡ some r)
        × (r.decision ≡ allow)
        × (r.requires_approval ≡ false)
  unfolding evaluate
  allowed-chosen_rule h = elim (Option-cases (chosen_rule policy.rules t n risk severity)) [
    | inl e ↦ absurd (ground (arith, first_decision-chosen_rule policy.rules t n risk severity))
    | inr (r, e) ↦ (
      r,
      e,
      ground (arith, first_decision-chosen_rule policy.rules t n risk severity),
      ground (arith, first_decision-chosen_rule policy.rules t n risk severity),
    )
  ]

  -- ALLOW is answered only where the kill switch is off, the policy is enabled and in
  -- approval-required mode, and the first matching rule says ALLOW and asks for no approval.
  pub evaluate-allow_iff : ((evaluate policy t n risk severity killed).0 ≡ allow) ↔ (
      (killed ≡ false)
      × (policy.enabled ≡ true)
      × (policy.mode ≡ approval_required)
      × ((r : AutomationRule) × (chosen_rule policy.rules t n risk severity ≡ some r)
          × (r.decision ≡ allow)
          × (r.requires_approval ≡ false)))
  unfolding evaluate
  evaluate-allow_iff = (
    λ h. (ground arith, ground arith, ground arith, allowed-chosen_rule h),
    λ (off, on, mode, (r, chosen, says, free)).
        ground (arith, first_decision-chosen_rule policy.rules t n risk severity),
  )

  -- A run is denied wherever the kill switch is on, the policy is disabled or in disabled mode;
  -- else prepare-only mode only prepares; else the first matching rule decides, and approval is
  -- required where none matches.
  pub evaluate_lem : (evaluate policy t n risk severity killed).0 ≡ (
      if killed || not policy.enabled then deny else elim policy.mode [
        | disabled ↦ deny
        | prepare_only ↦ only_prepare
        | approval_required ↦ (decided (chosen_rule policy.rules t n risk severity)).0
      ])
  unfolding evaluate
  evaluate_lem = ground (arith, first_decision-chosen_rule policy.rules t n risk severity)
