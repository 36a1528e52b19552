-- ===== src/Risk/Laws.antt =====
-- What guardian/risk/engine.py and guardian/policy/engine.py make of detections together.
use cyber_sage.Prelude.{
  ℕ, zero, suc, String, ◌≡◌, refl, ◌+◌, ◌-◌, ◌*◌, ◌≤◌, Bool, true, false, Option, List, [], ◌∷◌,
  ◌++◌, leb, leb→le, if◌then◌else◌, length, length-append, arith, ◌↔◌, ap, ◌==◌,
}
use cyber_sage.Risk.Engine.{
  Detection, Factor, RiskScore, max_severity, new_technique, see, technique_factor,
  technique_factors, sum_values, repeated_bonus, total_score, severity_for, scored, compute_risk,
}
use cyber_sage.Risk.Response.{
  action_for, is_approval_required, is_rollback_capable, evaluate, ResponseDecision,
}

sum_values-append : (fs gs : List Factor) → sum_values (fs ++ gs) ≡ sum_values fs + sum_values gs
sum_values-append [] gs = omega arith
sum_values-append (f ∷ fs) gs = omega (arith, sum_values-append fs gs)

module _ {C : Type 0} where
  max_severity-append : (ds es : List (Detection C)) → max_severity ds ≤ max_severity (ds ++ es)
  unfolding max_severity
  max_severity-append [] es = omega arith
  max_severity-append (d ∷ ds) es = ground (arith, max_severity-append ds es)

  technique_factors-append :
      (seen : List String) (ds es : List (Detection C))
      → sum_values (technique_factors seen ds) ≤ sum_values (technique_factors seen (ds ++ es))
  unfolding technique_factors
  technique_factors-append seen [] es = omega arith
  technique_factors-append seen (d ∷ ds) es =
      let t = new_technique seen d in
      omega (
        arith,
        sum_values-append (technique_factor t) (technique_factors (see t seen) ds),
        sum_values-append (technique_factor t) (technique_factors (see t seen) (ds ++ es)),
        technique_factors-append (see t seen) ds es,
      )

times_mono : (a b step : ℕ) → a ≤ b → a * step ≤ b * step
times_mono zero b step h = omega arith
times_mono (suc a) zero step h = omega (arith, h)
times_mono (suc a) (suc b) step h = omega (arith, times_mono a b step (omega (arith, h)))

repeated_bonus_mono :
    (a b step limit : ℕ) → a ≤ b → repeated_bonus a step limit ≤ repeated_bonus b step limit
repeated_bonus_mono a b step limit h =
    ground (arith, times_mono (a - 1) (b - 1) step (omega (arith, h)))

named_critical :
    (a b c : Bool)
    → ((if a then "critical" else if b then "high" else if c then "medium" else "low")
        == "critical")
      ≡ true
    → a ≡ true
named_critical true b c h = refl
named_critical false true c h = h
named_critical false false true h = h
named_critical false false false h = h

critical_score : (s : ℕ) → severity_for s ≡ "critical" → 80 ≤ s
unfolding severity_for
critical_score s h =
    leb→le 80 s (named_critical (leb 80 s) (leb 60 s) (leb 35 s) (ap (λ x. x == "critical") h))

module _ {C : Type 0} (zero_confidence : C) (rounded_average : List C → C)
    (explain : ℕ → String → ℕ → List String → String) where
  abbrev pub risk : List (Detection C) → (groups recurrences : ℕ) → RiskScore C
  risk ds groups recurrences =
      compute_risk zero_confidence rounded_average explain ds groups recurrences

  total_score-append :
      (ds es : List (Detection C)) (g g' r r' : ℕ)
      → g ≤ g'
      → r ≤ r'
      → total_score ds g r ≤ total_score (ds ++ es) g' r'
  unfolding total_score
  total_score-append ds es g g' r r' hg hr = omega (
    arith,
    max_severity-append ds es,
    technique_factors-append [] ds es,
    repeated_bonus_mono (length ds) (length (ds ++ es)) 5 20 (omega (arith, length-append ds es)),
    repeated_bonus_mono g g' 3 15 hg,
    repeated_bonus_mono r r' 2 10 hr,
  )

  -- More evidence never lowers the score: not further detections, nor more groups of evidence,
  -- nor more recurrences.
  pub compute_risk-append :
      (ds es : List (Detection C)) (g g' r r' : ℕ)
      → g ≤ g'
      → r ≤ r'
      → (risk ds g r).score ≤ (risk (ds ++ es) g' r').score
  unfolding compute_risk scored
  compute_risk-append [] es g g' r r' hg hr = omega arith
  compute_risk-append (d ∷ ds) es g g' r r' hg hr = total_score-append (d ∷ ds) es g g' r r' hg hr

  critical_risk :
      (ds : List (Detection C)) (groups recurrences : ℕ)
      → (risk ds groups recurrences).severity ≡ "critical"
      → 80 ≤ (risk ds groups recurrences).score
  unfolding compute_risk scored
  critical_risk [] groups recurrences h = ground (arith, ap (λ x. x == "critical") h)
  critical_risk (d ∷ ds) groups recurrences h =
      critical_score (total_score (d ∷ ds) groups recurrences) h

  module _ {E : Type 0} (one_decimal show_int : ℕ → String) where
    -- The recommendation for the risk of these detections.
    abbrev pub response :
        List (Detection C)
        → (groups recurrences : ℕ) → List E
        → Option String
        → String
        → ℕ
        → ResponseDecision C E
    response ds groups recurrences evidence incident decision_id now =
        let r = risk ds groups recurrences in
        evaluate one_decimal show_int r.score r.severity r.confidence r.factors evidence incident
          decision_id now

    -- A recommendation requires an approval exactly if the score is 65 or more, and exactly then it
    -- can be rolled back. That is so for every critical risk.
    pub response_iff :
        (ds : List (Detection C)) (groups recurrences : ℕ) (evidence : List E)
        (incident : Option String) (decision_id : String) (now : ℕ)
        → (((response ds groups recurrences evidence incident decision_id now).requires_approval
              ≡ true)
            ↔ (65 ≤ (risk ds groups recurrences).score))
          × ((response ds groups recurrences evidence incident decision_id now).rollback_available
              ≡ (response ds groups recurrences evidence incident decision_id
                  now).requires_approval)
          × (((risk ds groups recurrences).severity ≡ "critical")
              → (response ds groups recurrences evidence incident decision_id now).requires_approval
                ≡ true)
    unfolding evaluate action_for is_approval_required is_rollback_capable
    response_iff ds groups recurrences evidence incident decision_id now =
        ground (arith, critical_risk ds groups recurrences)
