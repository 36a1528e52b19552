-- ===== src/Automation/V5/Verdicts.antt =====
-- What `evaluate_policies` decides: which rule it names, when it denies, and that it forgets the
-- order of the policies.
use cyber_sage.Prelude.{
  ℕ, ◌≡◌, ◌⊎◌, inl, inr, refl, ap, subst, true, false, none, some, List, [], ◌∷◌, arith, length,
  All, ok, Result-cases,
}
use mathlib.Core.List.{Memᴰ, Permᴰ}
use cyber_sage.Prelude.Sorting.{sort_by}
use cyber_sage.Prelude.Sorting.Laws.{
  length-perm, All-perm, Memᴰ-perm, sort_by-Permᴰ, sort_by-first, first-Memᴰ, sort_by-empty,
  List-cases,
}
use cyber_sage.Automation.Policy.{}
use cyber_sage.Automation.V5.Rules.{Texts, AutomationPolicyV5, EvaluationRequest, EvaluationResult}
use cyber_sage.Automation.V5.Validation.{validate_request}
use cyber_sage.Automation.V5.Precedence.{key_leb, by_policy_id}
use cyber_sage.Automation.V5.Collecting.{Candidate, by_key, no_buckets}
use cyber_sage.Automation.V5.Evaluation.{
  conclude, denied_by, allowed_by, without_rule, decide_policies, evaluate_policies,
}
use cyber_sage.Automation.V5.Candidates.{
  candidates, candidates-perm, denying, other_match, add_policies-grown,
}

-- The candidates among which the winner is sought: the denying ones where there is one.
abbrev pub preferred : (denies allows : List Candidate) → List Candidate
preferred [] allows = allows
preferred (c ∷ denies) allows = c ∷ denies

-- The result names the candidate's rule.
pub record Names (r : EvaluationResult) (w : Candidate) : Type 0 where
  pub policy_named : r.matched_policy_id ≡ some w.policy.policy_id
  pub version_named : r.matched_policy_version ≡ some w.policy.version
  pub rule_named : r.matched_rule_id ≡ some w.rule.rule_id
  pub specificity_named : r.scope_specificity ≡ w.specificity

-- The candidate is one of the pool and none of the pool has a smaller key.
abbrev pub Wins : Candidate → List Candidate → Type 0
Wins w pool = Memᴰ w pool × All (λ c. key_leb w.key c.key ≡ true) pool

-- Nothing is named where the pool is empty, and else its first candidate.
abbrev pub Chooses : List Candidate → EvaluationResult → Type 0
Chooses pool r =
    ((pool ≡ []) × (r.matched_rule_id ≡ none)) ⊎ ((w : Candidate) × Wins w pool × Names r w)

denied_by-Names : (w : Candidate) (n total : ℕ) → Names (denied_by w n total) w
unfolding denied_by
denied_by-Names w n total = record {
  policy_named = refl;
  version_named = refl;
  rule_named = refl;
  specificity_named = refl;
}

allowed_by-Names : (w : Candidate) (n total : ℕ) → Names (allowed_by w n total) w
unfolding allowed_by
allowed_by-Names w n total = record {
  policy_named = refl;
  version_named = refl;
  rule_named = refl;
  specificity_named = refl;
}

first-Wins : (w : Candidate) (ws l : List Candidate) → sort_by by_key l ≡ w ∷ ws → Wins w l
first-Wins w ws l e = (first-Memᴰ by_key w ws l e, sort_by-first by_key w ws l e)

conclude_others-Chooses :
    (allows : List Candidate) (n total : ℕ)
    → Chooses allows (conclude (sort_by by_key []) (sort_by by_key allows) n total)
unfolding conclude sort_by
conclude_others-Chooses allows n total = elim (List-cases (sort_by by_key allows)) [
  | inl e ↦ rw e (inl (sort_by-empty by_key allows e, unfold without_rule in refl))
  | inr (w, ws, e) ↦ rw e (inr (w, first-Wins w ws allows e, allowed_by-Names w n total))
]

conclude-Chooses :
    (denies allows : List Candidate) (n total : ℕ)
    → Chooses
        (preferred denies allows)
        (conclude (sort_by by_key denies) (sort_by by_key allows) n total)
unfolding conclude
conclude-Chooses [] allows n total = conclude_others-Chooses allows n total
conclude-Chooses (d ∷ ds) allows n total = elim (List-cases (sort_by by_key (d ∷ ds))) [
  | inl e ↦ absurd (ground (arith, sort_by-empty by_key (d ∷ ds) e))
  | inr (w, ws, e) ↦ rw e (inr (w, first-Wins w ws (d ∷ ds) e, denied_by-Names w n total))
]

preferred-perm :
    {d e a b : List Candidate} → Permᴰ d e → Permᴰ a b → Permᴰ (preferred d a) (preferred e b)
preferred-perm {d = []} {e = []} p q = q
preferred-perm {d = []} {e = x ∷ e} p q = absurd (ground (arith, length-perm p))
preferred-perm {d = x ∷ d} {e = []} p q = absurd (ground (arith, length-perm p))
preferred-perm {d = x ∷ d} {e = y ∷ e} p q = p

Chooses-perm : {l r : List Candidate} (v : EvaluationResult) → Permᴰ l r → Chooses l v → Chooses r v
Chooses-perm {l = []} {r = []} v p c = c
Chooses-perm {l = []} {r = x ∷ r} v p c = absurd (ground (arith, length-perm p))
Chooses-perm {l = x ∷ l} {r} v p (inl (e, n)) = absurd (ground (arith, ap length e))
Chooses-perm {l = x ∷ l} {r} v p (inr (w, (m, a), n)) =
    inr (w, (Memᴰ-perm p m, All-perm (λ c. key_leb w.key c.key ≡ true) p a), n)

module _ (t : Texts) {J : Type 0} (point : ℕ) (policies : List AutomationPolicyV5)
    (request : EvaluationRequest J) (moment : ℕ) where
  abbrev pub denies : List Candidate
  denies = candidates (denying t request) moment policies

  abbrev pub others : List Candidate
  others = candidates (other_match t request) moment policies

  decide-Chooses :
      Chooses (preferred denies others) (decide_policies t policies request moment false)
  unfolding decide_policies
  decide-Chooses =
      let ordered = sort_by by_policy_id policies in
      let p = sort_by-Permᴰ by_policy_id policies in
      rw (add_policies-grown t request moment ordered no_buckets) (
        Chooses-perm _
          (preferred-perm (candidates-perm (denying t request) moment p)
            (candidates-perm (other_match t request) moment p))
          (conclude-Chooses (candidates (denying t request) moment ordered)
            (candidates (other_match t request) moment ordered) _ _))

  -- A valid request outside the kill switch: the result names no rule where no live policy has a
  -- matching one; else it names the policy, version, rule and specificity of a candidate with the
  -- smallest key, among the denying candidates where there is one and among the others where not.
  pub evaluate_policies-Chooses :
      (r : EvaluationResult)
      → evaluate_policies t point policies request moment false ≡ ok r
      → Chooses (preferred denies others) r
  unfolding evaluate_policies
  evaluate_policies-Chooses r h = elim (Result-cases (validate_request point request)) [
    | inl (u, e) ↦ subst (Chooses (preferred denies others)) (ground (arith, e)) decide-Chooses
    | inr (x, e) ↦ absurd (ground (arith, e))
  ]
