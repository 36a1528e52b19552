-- ===== src/Automation/V5/Unordered.antt =====
-- `evaluate_policies` forgets the order in which it is given the policies.
use cyber_sage.Prelude.{
  ℕ, String, ◌≡◌, ◌≢◌, Bool, not, List, [], ◌∷◌, arith, All, Bool-cases, inl, inr,
}
use mathlib.Core.List.{Permᴰ}
use cyber_sage.Prelude.Sorting.{}
use cyber_sage.Prelude.Sorting.Laws.{length-perm, Strict, sort_by-unordered}
use cyber_sage.Prelude.TextOrder.{text_leb, text_leb_total, text_leb_antisymm}
use cyber_sage.Automation.V5.Rules.{Texts, AutomationPolicyV5, EvaluationRequest}
use cyber_sage.Automation.V5.Precedence.{by_policy_id}
use cyber_sage.Automation.V5.Evaluation.{decide_policies, evaluate_policies}

-- No identifier is used twice.
abbrev pub DistinctIds : List AutomationPolicyV5 → Type 0
DistinctIds [] = Unit
DistinctIds (p ∷ ps) = All (λ q. p.policy_id ≢ q.policy_id) ps × DistinctIds ps

text_leb_strict : (s t : String) → s ≢ t → text_leb s t ≡ not (text_leb t s)
text_leb_strict s t d = elim (Bool-cases (text_leb s t)) [
  | inl e ↦ elim (Bool-cases (text_leb t s)) [
    | inl f ↦ absurd (d (text_leb_antisymm s t e f))
    | inr f ↦ ground (arith, e, f)
  ]
  | inr e ↦ ground (arith, e, text_leb_total s t e)
]

strict-All :
    (p : AutomationPolicyV5) (ps : List AutomationPolicyV5)
    → All (λ q. p.policy_id ≢ q.policy_id) ps
    → All (λ q. text_leb p.policy_id q.policy_id ≡ not (text_leb q.policy_id p.policy_id)) ps
strict-All p [] d = tt
strict-All p (q ∷ qs) (d, ds) = (text_leb_strict p.policy_id q.policy_id d, strict-All p qs ds)

DistinctIds-Strict : (ps : List AutomationPolicyV5) → DistinctIds ps → Strict by_policy_id ps
DistinctIds-Strict [] d = tt
DistinctIds-Strict (p ∷ ps) (d, ds) = (strict-All p ps d, DistinctIds-Strict ps ds)

-- Policies whose identifiers are distinct are evaluated to the same result, errors included, in
-- whatever order they are given.
pub evaluate_policies-unordered :
    (t : Texts) {J : Type 0} (point : ℕ) {ps qs : List AutomationPolicyV5}
    (request : EvaluationRequest J) (moment : ℕ) (killed : Bool)
    → Permᴰ ps qs
    → DistinctIds ps
    → evaluate_policies t point ps request moment killed
      ≡ evaluate_policies t point qs request moment killed
unfolding evaluate_policies decide_policies
evaluate_policies-unordered t point {ps} request moment killed p d =
    ground (arith, length-perm p, sort_by-unordered by_policy_id p (DistinctIds-Strict ps d))
