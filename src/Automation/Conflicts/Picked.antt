-- ===== src/Automation/Conflicts/Picked.antt =====
-- `evaluate_policies` does not name a rule that the analysis reports as fully shadowed.
use cyber_sage.Prelude.{
  ℕ, String, ◌≡◌, ◌≢◌, inl, inr, refl, sym, ◌∙◌, ap, subst, Bool, true, false, some, List, [], ◌∷◌,
  map, select, arith, All, All-append, ok, Bool-cases,
}
use mathlib.Core.List.{Memᴰ}
use cyber_sage.Prelude.Sorting.Laws.{All-member}
use cyber_sage.Automation.V5.Rules.{
  Texts, PolicyRuleV5, AutomationPolicyV5, EvaluationRequest, EvaluationResult,
}
use cyber_sage.Automation.V5.Collecting.{Candidate, candidate, is_prepare_only}
use cyber_sage.Automation.V5.Candidates.{is_live, candidates, denying, other_match}
use cyber_sage.Automation.V5.Evaluation.{evaluate_policies}
use cyber_sage.Automation.V5.Verdicts.{preferred, Wins, evaluate_policies-Chooses}
use cyber_sage.Automation.Conflicts.Analysis.{Kind, finding}
use cyber_sage.Automation.Conflicts.Common.{IpLaws}
use cyber_sage.Automation.Conflicts.Shadowed.{IsListed, DifferentIds, shadowed-Wins, precedence-All}

-- No two elements have the same key.
abbrev pub Distinct {ℓ} : {A : Type ℓ} → (A → String) → List A → Type 0
Distinct key [] = Unit
Distinct key (x ∷ xs) = All (λ y. key x ≢ key y) xs × Distinct key xs

same_key {ℓ} :
    {A : Type ℓ} (key : A → String) (a b : A) {xs : List A}
    → Memᴰ a xs
    → Memᴰ b xs
    → Distinct key xs
    → key a ≡ key b
    → a ≡ b
same_key key a b (Memᴰ.head e) (Memᴰ.head f) d h = e ∙ sym f
same_key key a b (Memᴰ.head {x} e) (Memᴰ.tail m) d h =
    absurd (All-member (λ y. key x ≢ key y) b m d.0 (ap key (sym e) ∙ h))
same_key key a b (Memᴰ.tail m) (Memᴰ.head {x} f) d h =
    absurd (All-member (λ y. key x ≢ key y) a m d.0 (ap key (sym f) ∙ sym h))
same_key key a b (Memᴰ.tail m) (Memᴰ.tail n) d h = same_key key a b m n d.1 h

-- The policies' identifiers are distinct, and so are those of the rules of each policy.
abbrev pub HasDistinctIds : List AutomationPolicyV5 → Type 0
HasDistinctIds policies =
    Distinct (λ (p : AutomationPolicyV5). p.policy_id) policies
    × All (λ p. Distinct (λ (r : PolicyRuleV5). r.rule_id) p.rules) policies

listed_same :
    {policies : List AutomationPolicyV5} (c d : Candidate)
    → HasDistinctIds policies
    → IsListed policies c
    → IsListed policies d
    → c.policy.policy_id ≡ d.policy.policy_id
    → c.rule.rule_id ≡ d.rule.rule_id
    → c ≡ d
listed_same c d (ps, rs) lc ld p r =
    let policy : c.policy ≡ d.policy =
      same_key (λ q. q.policy_id) c.policy d.policy lc.in_policies ld.in_policies ps p in
    let rule : c.rule ≡ d.rule =
      same_key (λ q. q.rule_id) c.rule d.rule (subst (λ q. Memᴰ c.rule q.rules) policy lc.in_rules)
        ld.in_rules
        (All-member (λ q. Distinct (λ (x : PolicyRuleV5). x.rule_id) q.rules) d.policy
          ld.in_policies rs)
        r in
    lc.is_candidate
    ∙ ap (λ q. candidate q c.rule) policy
    ∙ ap (candidate d.policy) rule
    ∙ sym ld.is_candidate

module _ (q : AutomationPolicyV5 → PolicyRuleV5 → Bool) (moment : ℕ)
    (policies : List AutomationPolicyV5) where
  selected-IsListed :
      (p : AutomationPolicyV5)
      → Memᴰ p policies
      → (rs : List PolicyRuleV5) → ((r : PolicyRuleV5) → Memᴰ r rs → Memᴰ r p.rules)
      → All (IsListed policies) (map (candidate p) (select (q p) rs))
  selected-IsListed p m [] f = tt
  selected-IsListed p m (r ∷ rs) f =
      let rest = selected-IsListed p m rs (λ x n. f x (Memᴰ.tail n)) in
      elim (Bool-cases (q p r)) [
        | inl e ↦
            rw e (
              record { in_policies = m; in_rules = f r (Memᴰ.head refl); is_candidate = refl },
              rest,
            )
        | inr e ↦ rw e rest
      ]

  candidates-IsListed :
      (ps : List AutomationPolicyV5)
      → ((p : AutomationPolicyV5) → Memᴰ p ps → Memᴰ p policies)
      → All (IsListed policies) (candidates q moment ps)
  candidates-IsListed [] f = tt
  candidates-IsListed (p ∷ ps) f =
      let rest = candidates-IsListed ps (λ x n. f x (Memᴰ.tail n)) in
      elim (Bool-cases (is_live moment p)) [
        | inl e ↦ rw e (
            All-append (IsListed policies) _ _
              (selected-IsListed p (f p (Memᴰ.head refl)) p.rules (λ r n. n)) rest)
        | inr e ↦ rw e rest
      ]

preferred-All :
    (P : Candidate → Type 0) (denies allows : List Candidate)
    → All P denies
    → All P allows
    → All P (preferred denies allows)
preferred-All P [] allows d a = a
preferred-All P (c ∷ denies) allows d a = d

finding-IsListed :
    (t : Texts) (conflict_id : (a b : Candidate) → Kind → String)
    (policies : List AutomationPolicyV5) (moment : ℕ) (a b : Candidate)
    → IsListed policies a
    → IsListed policies b
    → IsListed policies (finding t conflict_id moment a b).loser
unfolding finding
finding-IsListed t conflict_id policies moment a b la lb =
    (precedence-All (IsListed policies) _ a b la lb).1

-- The policies have different identifiers, and so have the rules of each, and the addresses obey
-- their laws. Where the analysis of two rules of these policies finds that both policies are active,
-- neither of them is in prepare-only mode, and the loser is covered in full, then no valid request
-- that is evaluated on the policies at that time, outside the kill switch, has a result that names
-- the loser's policy and the loser's rule.
pub shadowed-evaluate_policies :
    (t : Texts) (conflict_id : (a b : Candidate) → Kind → String) (laws : IpLaws t) {J : Type 0}
    (policies : List AutomationPolicyV5) (request : EvaluationRequest J) (point moment : ℕ)
    (a b : Candidate) (r : EvaluationResult)
    → HasDistinctIds policies
    → IsListed policies a
    → IsListed policies b
    → DifferentIds a b
    → is_prepare_only a.policy.mode ≡ false
    → is_prepare_only b.policy.mode ≡ false
    → (finding t conflict_id moment a b).runtime_impact ≡ true
    → (finding t conflict_id moment a b).full_coverage ≡ true
    → evaluate_policies t point policies request moment false ≡ ok r
    → r.matched_policy_id ≡ some (finding t conflict_id moment a b).loser.policy.policy_id
    → r.matched_rule_id ≢ some (finding t conflict_id moment a b).loser.rule.rule_id
shadowed-evaluate_policies t conflict_id laws policies request point moment a b r ids la lb d pa pb
      runtime full evaluated named_policy named_rule =
    let loser = (finding t conflict_id moment a b).loser in
    let denies = candidates (denying t request) moment policies in
    let others = candidates (other_match t request) moment policies in
    elim (evaluate_policies-Chooses t point policies request moment r evaluated) [
      | inl (empty, nothing) ↦ absurd (ground (arith, nothing, named_rule))
      | inr (w, wins, names) ↦
          let listed : IsListed policies w = All-member (IsListed policies) w wins.0 (
            preferred-All (IsListed policies) denies others
              (candidates-IsListed (denying t request) moment policies policies (λ p m. m))
              (candidates-IsListed (other_match t request) moment policies policies (λ p m. m))) in
          let same : w ≡ loser =
            listed_same w loser ids listed
              (finding-IsListed t conflict_id policies moment a b la lb)
              (ground (arith, names.policy_named, named_policy))
              (ground (arith, names.rule_named, named_rule)) in
          absurd (
            shadowed-Wins t conflict_id laws policies request moment a b la lb d pa pb runtime full
              (subst (λ c. Wins c (preferred denies others)) same wins))
    ]
