-- ===== src/Automation/V5/Denials.antt =====
-- When `evaluate_policies` denies, and what it lets through without an approval.
use cyber_sage.Prelude.{
  ℕ, length, ◌≡◌, ◌∙◌, inl, inr, refl, sym, ap, Bool, true, false, ◌&&◌, ◌||◌, List, [], ◌∷◌, ◌++◌,
  map, select, arith, All, All-append, Bool-cases, ok, Result-cases,
}
use mathlib.Core.List.{}
use cyber_sage.Prelude.Sorting.{any, sort_by}
use cyber_sage.Prelude.Sorting.Laws.{
  any-perm, All-member, sort_by-Permᴰ, sort_by-empty, first-Memᴰ, List-cases, length-perm,
}
use cyber_sage.Prelude.TextOrder.{}
use cyber_sage.Automation.Policy.{only_prepare}
use cyber_sage.Automation.V5.Rules.{
  Texts, PolicyRuleV5, AutomationPolicyV5, EvaluationRequest, EvaluationResult,
}
use cyber_sage.Automation.V5.Validation.{validate_request}
use cyber_sage.Automation.V5.Precedence.{by_policy_id}
use cyber_sage.Automation.V5.Collecting.{
  Candidate, candidate, by_key, is_deny, is_disabled, no_buckets,
}
use cyber_sage.Automation.V5.Evaluation.{
  conclude, denied_by, allowed_by, asks_approval, without_rule, decide_policies, evaluate_policies,
}
use cyber_sage.Automation.V5.Candidates.{
  is_live, has_deny, candidates, candidates_of, denying, other_match, add_policies-grown,
}

-- What holds of every rule of a live policy that passes the test holds of every candidate.
module _ (P : Candidate → Type 0) (q : AutomationPolicyV5 → PolicyRuleV5 → Bool) (moment : ℕ)
    (h : (policy : AutomationPolicyV5) (rule : PolicyRuleV5)
      → is_live moment policy ≡ true
      → q policy rule ≡ true
      → P (candidate policy rule)) where
  selected-All :
      (policy : AutomationPolicyV5) (rules : List PolicyRuleV5)
      → is_live moment policy ≡ true
      → All P (map (candidate policy) (select (q policy) rules))
  selected-All policy [] l = tt
  selected-All policy (rule ∷ rules) l = elim (Bool-cases (q policy rule)) [
    | inl e ↦ rw e (h policy rule l e, selected-All policy rules l)
    | inr e ↦ rw e (selected-All policy rules l)
  ]

  pub candidates-All : (policies : List AutomationPolicyV5) → All P (candidates q moment policies)
  candidates-All [] = tt
  candidates-All (policy ∷ policies) =
      let rest = candidates-All policies in
      elim (Bool-cases (is_live moment policy)) [
        | inl e ↦ rw e (All-append P _ _ (selected-All policy policy.rules e) rest)
        | inr e ↦ rw e rest
      ]

abbrev is_cons {ℓ} : {A : Type ℓ} → List A → Bool
is_cons [] = false
is_cons (x ∷ xs) = true

is_cons-append {ℓ} : {A : Type ℓ} (l r : List A) → is_cons (l ++ r) ≡ (is_cons l || is_cons r)
is_cons-append [] r = refl
is_cons-append (x ∷ l) r = refl

is_cons-select {ℓ κ} :
    {A : Type ℓ} {B : Type κ} (f : A → B) (q : A → Bool) (xs : List A)
    → is_cons (map f (select q xs)) ≡ any q xs
is_cons-select f q [] = refl
is_cons-select f q (x ∷ xs) = ground (arith, is_cons-select f q xs)

-- There is a candidate where a live policy has a rule that passes the test.
is_cons-candidates :
    (q : AutomationPolicyV5 → PolicyRuleV5 → Bool) (moment : ℕ) (policies : List AutomationPolicyV5)
    → is_cons (candidates q moment policies)
      ≡ any (λ p. is_live moment p && any (q p) p.rules) policies
is_cons-candidates q moment [] = refl
is_cons-candidates q moment (p ∷ ps) =
    is_cons-append (candidates_of q moment p) (candidates q moment ps)
    ∙ ground (arith, is_cons-candidates q moment ps, is_cons-select (candidate p) (q p) p.rules)

-- Neither a denying rule nor one of a policy in disabled mode is among the others.
abbrev IsOther : Candidate → Type 0
IsOther c = (has_deny c.policy c.rule ≡ false) × (is_disabled c.policy.mode ≡ false)

allowed_by-deny :
    (c : Candidate) (n total : ℕ) → IsOther c → is_deny (allowed_by c n total).decision ≡ false
unfolding allowed_by
allowed_by-deny c n total h = ground (arith, h.0)

allowed_by-prepares :
    (c : Candidate) (n total : ℕ)
    → IsOther c
    → (allowed_by c n total).would_require_approval ≡ false
    → (allowed_by c n total).decision ≡ only_prepare
unfolding allowed_by asks_approval
allowed_by-prepares c n total h e = ground (arith, h.1)

conclude-deny :
    (denies allows : List Candidate) (n total : ℕ)
    → All IsOther allows
    → is_deny (conclude (sort_by by_key denies) (sort_by by_key allows) n total).decision
      ≡ is_cons denies
unfolding conclude denied_by without_rule
conclude-deny denies allows n total a = elim (List-cases (sort_by by_key denies)) [
  | inr (w, ws, e) ↦ ground (arith, e, length-perm (sort_by-Permᴰ by_key denies), ap length e)
  | inl e ↦ elim (List-cases (sort_by by_key allows)) [
    | inl f ↦ ground (arith, e, f, sort_by-empty by_key denies e)
    | inr (w, ws, f) ↦ ground (
      arith,
      e,
      f,
      sort_by-empty by_key denies e,
      allowed_by-deny w n total (All-member IsOther w (first-Memᴰ by_key w ws allows f) a),
    )
  ]
]

conclude-prepares :
    (denies allows : List Candidate) (n total : ℕ)
    → All IsOther allows
    → (conclude (sort_by by_key denies) (sort_by by_key allows) n total).would_require_approval
      ≡ false
    → (conclude (sort_by by_key denies) (sort_by by_key allows) n total).decision ≡ only_prepare
unfolding conclude denied_by without_rule
conclude-prepares denies allows n total a h = elim (List-cases (sort_by by_key denies)) [
  | inr (w, ws, e) ↦ absurd (ground (arith, e))
  | inl e ↦ elim (List-cases (sort_by by_key allows)) [
    | inl f ↦ absurd (ground (arith, e, f))
    | inr (w, ws, f) ↦ ground (
      arith,
      e,
      f,
      allowed_by-prepares w n total (All-member IsOther w (first-Memᴰ by_key w ws allows f) a),
    )
  ]
]

module _ (t : Texts) {J : Type 0} (point : ℕ) (policies : List AutomationPolicyV5)
    (request : EvaluationRequest J) (moment : ℕ) where
  ordered : List AutomationPolicyV5
  ordered = sort_by by_policy_id policies

  others-IsOther :
      (l : List AutomationPolicyV5) → All IsOther (candidates (other_match t request) moment l)
  others-IsOther =
      candidates-All IsOther (other_match t request) moment
        (λ p r l m. (ground (arith, m), ground (arith, l)))

  decided-deny :
      is_deny (decide_policies t policies request moment false).decision
      ≡ any (λ p. is_live moment p && any (denying t request p) p.rules) policies
  unfolding decide_policies ordered
  decided-deny = rw (add_policies-grown t request moment ordered no_buckets) (
      conclude-deny (candidates (denying t request) moment ordered)
        (candidates (other_match t request) moment ordered) _ _ (others-IsOther ordered)
      ∙ is_cons-candidates (denying t request) moment ordered
      ∙ any-perm (λ p. is_live moment p && any (denying t request p) p.rules)
          (sort_by-Permᴰ by_policy_id policies))

  decided-prepares :
      (decide_policies t policies request moment false).would_require_approval ≡ false
      → (decide_policies t policies request moment false).decision ≡ only_prepare
  unfolding decide_policies ordered
  decided-prepares = rw (add_policies-grown t request moment ordered no_buckets) (
      conclude-prepares (candidates (denying t request) moment ordered)
        (candidates (other_match t request) moment ordered) _ _ (others-IsOther ordered))

  killed_or_denied :
      (killed : Bool)
      → is_deny (decide_policies t policies request moment killed).decision
        ≡ (killed || any (λ p. is_live moment p && any (denying t request p) p.rules) policies)
  killed_or_denied true = unfold decide_policies without_rule in refl
  killed_or_denied false = decided-deny

  prepared_only :
      (killed : Bool)
      → (decide_policies t policies request moment killed).would_require_approval ≡ false
      → (decide_policies t policies request moment killed).decision ≡ only_prepare
  prepared_only true h = absurd (unfold decide_policies without_rule in ground (arith, h))
  prepared_only false h = decided-prepares h

  module _ (killed : Bool) (r : EvaluationResult)
      (h : evaluate_policies t point policies request moment killed ≡ ok r) where
    is_decided : r ≡ decide_policies t policies request moment killed
    unfolding evaluate_policies
    is_decided = elim (Result-cases (validate_request point request)) [
      | inl (u, e) ↦ ground (arith, e, h)
      | inr (x, e) ↦ absurd (ground (arith, e, h))
    ]

    -- The decision on a valid request is DENY exactly when the kill switch is on or a policy that is
    -- enabled, unexpired and in approval-required mode has a matching rule that denies, whatever the
    -- priorities of the other rules are.
    pub evaluate_policies-deny :
        is_deny r.decision
        ≡ (killed || any (λ p. is_live moment p && any (denying t request p) p.rules) policies)
    evaluate_policies-deny = ap (λ v. is_deny v.decision) is_decided ∙ killed_or_denied killed

    -- A valid request is told that it needs no approval only where the decision is to prepare it and no
    -- more: a pre-authorized rule of a policy in approval-required
    -- mode still asks for approval.
    pub evaluate_policies-asks : r.would_require_approval ≡ false → r.decision ≡ only_prepare
    evaluate_policies-asks e =
        ap (λ v. v.decision) is_decided
        ∙ prepared_only killed (ap (λ v. v.would_require_approval) (sym is_decided) ∙ e)
