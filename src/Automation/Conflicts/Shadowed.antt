-- ===== src/Automation/Conflicts/Shadowed.antt =====
-- A rule that the analysis reports as fully shadowed is never the one that the evaluation picks.
use cyber_sage.Prelude.{
  ℕ, String, ◌≡◌, ◌≢◌, ◌⊎◌, inl, inr, sym, ap, subst, ◌∙◌, Bool, true, false, not, ◌&&◌, List, map,
  select, arith, Bool-cases,
}
use mathlib.Core.List.{Memᴰ}
use mathlib.Core.List.Memᴰ
use mathlib.Core.List.Memᴰ.{not-nil}
use cyber_sage.Prelude.Sorting.Laws.{All-member, List-cases}
use cyber_sage.Prelude.TextOrder.{}
use cyber_sage.Automation.V5.Rules.{Texts, PolicyRuleV5, AutomationPolicyV5, EvaluationRequest}
use cyber_sage.Automation.V5.Precedence.{key_leb, key_leb_antisymm, candidate_sort_key}
use cyber_sage.Automation.V5.Collecting.{
  Candidate, candidate, is_deny, is_prepare_only, matches_request,
}
use cyber_sage.Automation.V5.Candidates.{
  is_live, has_deny, candidates, candidates_of, denying, other_match,
}
use cyber_sage.Automation.V5.Denials.{candidates-All}
use cyber_sage.Automation.V5.Verdicts.{preferred, Wins}
use cyber_sage.Automation.Conflicts.Subset.{rule_match_subset}
use cyber_sage.Automation.Conflicts.Analysis.{policy_is_active, Kind, differ, precedence, finding}
use cyber_sage.Automation.Conflicts.Common.{IpLaws}
use cyber_sage.Automation.Conflicts.Covering.{rule_matches-subset}

-- The candidate is a rule of one of the policies.
pub record IsListed (policies : List AutomationPolicyV5) (c : Candidate) : Type 0 where
  pub in_policies : Memᴰ c.policy policies
  pub in_rules : Memᴰ c.rule c.policy.rules
  pub is_candidate : c ≡ candidate c.policy c.rule

selected-Memᴰ {ℓ κ} :
    {A : Type ℓ} {B : Type κ} (f : A → B) (q : A → Bool) (x : A) {l : List A}
    → Memᴰ x l
    → q x ≡ true
    → Memᴰ (f x) (map f (select q l))
selected-Memᴰ f q x (Memᴰ.head {x = y} {xs = l} e) h = rw (ap q (sym e) ∙ h) (Memᴰ.head (ap f e))
selected-Memᴰ f q x (Memᴰ.tail {x = y} {xs = l} m) h = elim (Bool-cases (q y)) [
  | inl e ↦ rw e (Memᴰ.tail (selected-Memᴰ f q x m h))
  | inr e ↦ rw e (selected-Memᴰ f q x m h)
]

module _ (q : AutomationPolicyV5 → PolicyRuleV5 → Bool) (moment : ℕ) where
  candidates-Memᴰ :
      (p : AutomationPolicyV5) (r : PolicyRuleV5) {policies : List AutomationPolicyV5}
      → Memᴰ p policies
      → Memᴰ r p.rules
      → is_live moment p ≡ true
      → q p r ≡ true
      → Memᴰ (candidate p r) (candidates q moment policies)
  candidates-Memᴰ p r (Memᴰ.head {x} {xs} e) m l h = Memᴰ.append_left (candidates q moment xs) (
      subst (λ c. Memᴰ (candidate p r) (candidates_of q moment c)) e
        (rw l (selected-Memᴰ (candidate p) (q p) r m h)))
  candidates-Memᴰ p r (Memᴰ.tail {x} {xs} n) m l h =
      Memᴰ.append_right (candidates_of q moment x) (candidates-Memᴰ p r n m l h)

active-live :
    (policy : AutomationPolicyV5) (moment : ℕ)
    → policy_is_active policy moment ≡ true
    → is_live moment policy ≡ true
unfolding policy_is_active
active-live policy moment h = ground (arith, h)

-- The candidate alone denies, or both do or neither and its key is the smaller one.
abbrev Beats : Candidate → Candidate → Type 0
Beats w l =
    ((is_deny w.rule.decision ≡ true) × (is_deny l.rule.decision ≡ false))
    ⊎ ((is_deny w.rule.decision ≡ is_deny l.rule.decision) × (key_leb l.key w.key ≡ false))

module _ (t : Texts) (laws : IpLaws t) {J : Type 0} (policies : List AutomationPolicyV5)
    (request : EvaluationRequest J) (moment : ℕ) where
  denies : List Candidate
  denies = candidates (denying t request) moment policies

  others : List Candidate
  others = candidates (other_match t request) moment policies

  listed-Memᴰ :
      (q : AutomationPolicyV5 → PolicyRuleV5 → Bool) (c : Candidate)
      → IsListed policies c
      → is_live moment c.policy ≡ true
      → q c.policy c.rule ≡ true
      → Memᴰ c (candidates q moment policies)
  listed-Memᴰ q c i l h =
      subst (λ d. Memᴰ d (candidates q moment policies)) (sym i.is_candidate)
        (candidates-Memᴰ q moment c.policy c.rule i.in_policies i.in_rules l h)

  passing :
      (q : AutomationPolicyV5 → PolicyRuleV5 → Bool) (c : Candidate)
      → Memᴰ c (candidates q moment policies)
      → q c.policy c.rule ≡ true
  passing q c m =
      All-member (λ d. q d.policy d.rule ≡ true) c m
        (candidates-All (λ d. q d.policy d.rule ≡ true) q moment (λ p r l h. h) policies)

  passing_other :
      (c : Candidate)
      → Memᴰ c others
      → (matches_request t request c.rule && not (has_deny c.policy c.rule)) ≡ true
  unfolding others
  passing_other c m = passing (other_match t request) c m

  passing_deny :
      (c : Candidate)
      → Memᴰ c denies
      → (matches_request t request c.rule && has_deny c.policy c.rule) ≡ true
  unfolding denies
  passing_deny c m = passing (denying t request) c m

  module _ (w l : Candidate) (listed : IsListed policies w) (live : is_live moment w.policy ≡ true)
      (runs : is_prepare_only w.policy.mode ≡ false)
      (subset : rule_match_subset t l.rule w.rule ≡ true) where
    matched_too : matches_request t request l.rule ≡ true → matches_request t request w.rule ≡ true
    matched_too =
        rule_matches-subset t laws l.rule w.rule request.action_type request.action_name
          request.risk_score request.incident_severity request.target subset

    -- A denying winner is among the denying candidates whenever the loser matches.
    denied_too :
        matches_request t request l.rule ≡ true → is_deny w.rule.decision ≡ true → Memᴰ w denies
    unfolding denies
    denied_too m d =
        listed-Memᴰ (denying t request) w listed live (ground (arith, matched_too m, d, runs))

    allowed_too :
        matches_request t request l.rule ≡ true → is_deny w.rule.decision ≡ false → Memᴰ w others
    unfolding others
    allowed_too m d =
        listed-Memᴰ (other_match t request) w listed live (ground (arith, matched_too m, d))

    -- The loser is not first among candidates that hold the winner, nor among those that deny if
    -- the winner alone denies.
    behind : (pool : List Candidate) → key_leb l.key w.key ≡ false → Memᴰ w pool → ¬ Wins l pool
    behind pool after m (n, a) =
        absurd (ground (arith, after, All-member (λ c. key_leb l.key c.key ≡ true) w m a))

    not_picked : Beats w l → ¬ Wins l (preferred denies others)
    not_picked beats wins = elim (List-cases denies) [
      | inl e ↦
          let wins' = subst (λ ds. Wins l (preferred ds others)) e wins in
          let m : matches_request t request l.rule ≡ true =
            ground (arith, passing_other l wins'.0) in
          elim (Bool-cases (is_deny w.rule.decision)) [
            | inl d ↦ absurd (not-nil (subst (Memᴰ w) e (denied_too m d)))
            | inr d ↦ elim beats [
              | inl (dw, dl) ↦ absurd (ground (arith, d, dw))
              | inr (same, after) ↦ behind others after (allowed_too m d) wins'
            ]
          ]
      | inr (c, cs, e) ↦
          let wins' : Wins l denies =
            subst (Wins l) (sym e) (subst (λ ds. Wins l (preferred ds others)) e wins) in
          let p = passing_deny l wins'.0 in
          let m : matches_request t request l.rule ≡ true = ground (arith, p) in
          let dl : is_deny l.rule.decision ≡ true = ground (arith, p) in
          elim beats [
            | inl (dw, free) ↦ absurd (ground (arith, dl, free))
            | inr (same, after) ↦ behind denies after (denied_too m (same ∙ dl)) wins'
          ]
    ]

-- The pair is of two rules: another policy or another rule.
abbrev pub DifferentIds : Candidate → Candidate → Type 0
DifferentIds a b = (a.policy.policy_id ≢ b.policy.policy_id) ⊎ (a.rule.rule_id ≢ b.rule.rule_id)

-- The keys of different rules do not precede each other.
keys_differ :
    (p q : AutomationPolicyV5) (r s : PolicyRuleV5)
    → DifferentIds (candidate p r) (candidate q s)
    → key_leb (candidate p r).key (candidate q s).key ≡ true
    → key_leb (candidate q s).key (candidate p r).key ≡ false
unfolding candidate_sort_key
keys_differ p q r s d h = elim (Bool-cases (key_leb (candidate q s).key (candidate p r).key)) [
  | inr e ↦ e
  | inl e ↦
      let (pid, rid) = key_leb_antisymm (candidate p r).key (candidate q s).key h e in
      elim d [ inl n ↦ absurd (n pid) | inr n ↦ absurd (n rid) ]
]

listed_keys :
    {policies : List AutomationPolicyV5} {a b : Candidate}
    → IsListed policies a
    → IsListed policies b
    → DifferentIds a b
    → key_leb a.key b.key ≡ true
    → key_leb b.key a.key ≡ false
listed_keys {a} {b} la lb =
    subst (λ x. DifferentIds x b → key_leb x.key b.key ≡ true → key_leb b.key x.key ≡ false)
      (sym la.is_candidate)
      (subst
        (λ y.
          DifferentIds (candidate a.policy a.rule) y
          → key_leb (candidate a.policy a.rule).key y.key ≡ true
          → key_leb y.key (candidate a.policy a.rule).key ≡ false)
        (sym lb.is_candidate) (keys_differ a.policy b.policy a.rule b.rule))

pub precedence-All :
    (P : Candidate → Type 0) (runtime : Bool) (a b : Candidate)
    → P a
    → P b
    → P (precedence runtime a b).0 × P (precedence runtime a b).1
unfolding precedence
precedence-All P runtime a b pa pb =
    elim (Bool-cases (differ (is_deny a.rule.decision) (is_deny b.rule.decision))) [
      | inl e ↦ elim (Bool-cases (is_deny a.rule.decision)) [
        | inl d ↦ rw (e, d) (pa, pb)
        | inr d ↦ rw (e, d) (pb, pa)
      ]
      | inr e ↦ elim (Bool-cases (key_leb a.key b.key)) [
        | inl d ↦ rw (e, d) (pa, pb)
        | inr d ↦ rw (e, d) (pb, pa)
      ]
    ]

precedence-Beats :
    (runtime : Bool) (a b : Candidate)
    → (key_leb a.key b.key ≡ true → key_leb b.key a.key ≡ false)
    → Beats (precedence runtime a b).0 (precedence runtime a b).1
unfolding precedence
precedence-Beats runtime a b strict =
    elim (Bool-cases (differ (is_deny a.rule.decision) (is_deny b.rule.decision))) [
      | inl e ↦ elim (Bool-cases (is_deny a.rule.decision)) [
        | inl d ↦ rw (e, d) (inl (d, ground (arith, e, d)))
        | inr d ↦ rw (e, d) (inl (ground (arith, e, d), d))
      ]
      | inr e ↦ elim (Bool-cases (key_leb a.key b.key)) [
        | inl d ↦ rw (e, d) (inr (ground (arith, e), strict d))
        | inr d ↦ rw (e, d) (inr (ground (arith, e), d))
      ]
    ]

-- Where the analysis finds that both policies of a pair are active, neither of them is in
-- prepare-only mode, and the loser is covered in full, then the loser's rule is not the one that
-- `evaluate_policies` picks, for any request on these policies at that time.
pub shadowed-Wins :
    (t : Texts) (conflict_id : (a b : Candidate) → Kind → String) (laws : IpLaws t) {J : Type 0}
    (policies : List AutomationPolicyV5) (request : EvaluationRequest J) (moment : ℕ)
    (a b : Candidate)
    → IsListed policies a
    → IsListed policies b
    → DifferentIds a b
    → is_prepare_only a.policy.mode ≡ false
    → is_prepare_only b.policy.mode ≡ false
    → (finding t conflict_id moment a b).runtime_impact ≡ true
    → (finding t conflict_id moment a b).full_coverage ≡ true
    → ¬ Wins (finding t conflict_id moment a b).loser (
        preferred
          (candidates (denying t request) moment policies)
          (candidates (other_match t request) moment policies))
unfolding finding denies others
shadowed-Wins t conflict_id laws policies request moment a b la lb d pa pb runtime full =
    let active = policy_is_active a.policy moment && policy_is_active b.policy moment in
    let p = precedence active a b in
    not_picked t laws policies request moment p.0 p.1
      (precedence-All (IsListed policies) active a b la lb).0
      (precedence-All (λ c. is_live moment c.policy ≡ true) active a b
        (active-live a.policy moment (ground (arith, runtime)))
        (active-live b.policy moment (ground (arith, runtime)))).0
      (precedence-All (λ c. is_prepare_only c.policy.mode ≡ false) active a b pa pb).0 full
      (precedence-Beats active a b (listed_keys la lb d))
