-- ===== src/Automation/Conflicts/Complete.antt =====
-- The analysis misses no pair of rules that match a common request.
use cyber_sage.Prelude.{
  ℕ, String, ◌≡◌, sym, ap, subst, ◌∙◌, true, List, [], ◌∷◌, Bool-cases, inl, inr,
}
use mathlib.Core.List.{Memᴰ, Sublistᴰ}
use mathlib.Core.List.Memᴰ
use mathlib.Core.List.Permᴰ
use cyber_sage.Prelude.Sorting.{sort_by}
use cyber_sage.Prelude.Sorting.Laws.{Memᴰ-perm, sort_by-Permᴰ}
use cyber_sage.Automation.V5.Rules.{Texts, AutomationPolicyV5, EvaluationRequest}
use cyber_sage.Automation.V5.Precedence.{by_policy_id}
use cyber_sage.Automation.V5.Collecting.{Candidate, matches_request}
use cyber_sage.Automation.Conflicts.Overlap.{rules_overlap}
use cyber_sage.Automation.Conflicts.Analysis.{
  Kind, finding, findings_from, findings_of, by_conflict_id, flatten, analyze_policy_conflicts,
}
use cyber_sage.Automation.Conflicts.Common.{IpLaws}
use cyber_sage.Automation.Conflicts.Overlapping.{rules_overlap-common}

module _ (t : Texts) (conflict_id : (a b : Candidate) → Kind → String) (moment : ℕ) where
  findings_from-Memᴰ :
      (a b : Candidate) {flat : List Candidate}
      → Sublistᴰ (b ∷ []) flat
      → rules_overlap t a.rule b.rule ≡ true
      → Memᴰ (finding t conflict_id moment a b) (findings_from t conflict_id moment a flat)
  unfolding findings_from
  findings_from-Memᴰ a b (Sublistᴰ.cons {a = c} s) h =
      elim (Bool-cases (rules_overlap t a.rule c.rule)) [
        | inl e ↦ rw e (Memᴰ.tail (findings_from-Memᴰ a b s h))
        | inr e ↦ rw e (findings_from-Memᴰ a b s h)
      ]
  findings_from-Memᴰ a b (Sublistᴰ.cons-cons {b = c} e s) h =
      rw (ap (λ d. rules_overlap t a.rule d.rule) (sym e) ∙ h)
        (Memᴰ.head (ap (finding t conflict_id moment a) e))

  findings_of-Memᴰ :
      (a b : Candidate) {flat : List Candidate}
      → Sublistᴰ (a ∷ b ∷ []) flat
      → rules_overlap t a.rule b.rule ≡ true
      → Memᴰ (finding t conflict_id moment a b) (findings_of t conflict_id moment flat)
  unfolding findings_of
  findings_of-Memᴰ a b (Sublistᴰ.cons {a = c} {l₂ = flat} s) h =
      Memᴰ.append_right (findings_from t conflict_id moment c flat) (findings_of-Memᴰ a b s h)
  findings_of-Memᴰ a b (Sublistᴰ.cons-cons {b = c} {l₂ = flat} e s) h =
      Memᴰ.append_left (findings_of t conflict_id moment flat) (
        subst
          (λ d. Memᴰ (finding t conflict_id moment a b) (findings_from t conflict_id moment d flat))
          e (findings_from-Memᴰ a b s h))

  -- If two rules of the policies, one listed before the other, match a common request, then the
  -- analysis lists the finding of this pair.
  pub analyze-Memᴰ :
      (laws : IpLaws t) {J : Type 0} (policies : List AutomationPolicyV5)
      (request : EvaluationRequest J) (a b : Candidate)
      → Sublistᴰ (a ∷ b ∷ []) (flatten (sort_by by_policy_id policies))
      → matches_request t request a.rule ≡ true
      → matches_request t request b.rule ≡ true
      → Memᴰ
          (finding t conflict_id moment a b)
          (analyze_policy_conflicts t conflict_id policies moment)
  unfolding analyze_policy_conflicts
  analyze-Memᴰ laws policies request a b s ha hb =
      Memᴰ-perm
        (Permᴰ.symm (
          sort_by-Permᴰ by_conflict_id
            (findings_of t conflict_id moment (flatten (sort_by by_policy_id policies)))))
        (findings_of-Memᴰ a b s (
          rules_overlap-common t request.action_type request.action_name request.risk_score
            request.incident_severity request.target laws a.rule b.rule ha hb))
