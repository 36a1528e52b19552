-- ===== src/Automation/V5/Candidates.antt =====
-- Which rules of which policies `evaluate_policies` collects, independently of its loops.
use cyber_sage.Prelude.{
  ℕ, ◌≡◌, ◌∙◌, ap, ap₂, subst, Bool, not, ◌&&◌, List, [], ◌∷◌, ◌++◌, map, arith, if◌then◌else◌,
  select, count_if, suc, ◌+◌,
}
use mathlib.Core.List.{Permᴰ}
use mathlib.Core.List.Permᴰ
use cyber_sage.Prelude.Sorting.{}
use cyber_sage.Prelude.Sorting.Laws.{append-Permᴰ}
use mathlib.Core.List.{append-nil, append_assoc}
use cyber_sage.Automation.V5.Rules.{
  Texts, PolicyRuleV5, AutomationPolicyV5, EvaluationRequest, is_expired,
}
use cyber_sage.Automation.V5.Collecting.{
  Candidate, candidate, Buckets, is_deny, is_prepare_only, is_disabled, matches_request, add_rule,
  add_rules, add_policy, add_policies,
}

-- The policy is enabled, not in disabled mode and not expired.
abbrev pub is_live : ℕ → AutomationPolicyV5 → Bool
is_live moment policy =
    policy.enabled && not (is_disabled policy.mode) && not (is_expired policy moment)

abbrev pub has_deny : AutomationPolicyV5 → PolicyRuleV5 → Bool
has_deny policy rule = not (is_prepare_only policy.mode) && is_deny rule.decision

-- The rules of a live policy that pass a test.
abbrev pub candidates_of :
    (AutomationPolicyV5 → PolicyRuleV5 → Bool) → ℕ → AutomationPolicyV5 → List Candidate
candidates_of q moment policy =
    if is_live moment policy then map (candidate policy) (select (q policy) policy.rules) else []

abbrev pub candidates :
    (AutomationPolicyV5 → PolicyRuleV5 → Bool) → ℕ → List AutomationPolicyV5 → List Candidate
candidates q moment [] = []
candidates q moment (policy ∷ policies) =
    candidates_of q moment policy ++ candidates q moment policies

pub candidates-perm :
    (q : AutomationPolicyV5 → PolicyRuleV5 → Bool) (moment : ℕ) {l r : List AutomationPolicyV5}
    → Permᴰ l r
    → Permᴰ (candidates q moment l) (candidates q moment r)
candidates-perm q moment Permᴰ.nil = Permᴰ.nil
candidates-perm q moment (Permᴰ.cons {a} {b} {l₁ = l} {l₂ = r} e p) =
    Permᴰ.trans (Permᴰ.append_left (candidates_of q moment a) (candidates-perm q moment p)) (
      subst
        (λ c.
          Permᴰ (candidates_of q moment a ++ candidates q moment r)
            (candidates_of q moment c ++ candidates q moment r))
        e (Permᴰ.refl (candidates_of q moment a ++ candidates q moment r)))
candidates-perm q moment (Permᴰ.swap {a} {b} {a'} {b'} {l} e f) =
    subst (λ c. Permᴰ (candidates q moment (a ∷ b ∷ l)) (candidates q moment (a' ∷ c ∷ l))) e
      (subst (λ c. Permᴰ (candidates q moment (a ∷ b ∷ l)) (candidates q moment (c ∷ a ∷ l))) f
        (append-Permᴰ (candidates_of q moment a) (candidates_of q moment b)
          (candidates q moment l)))
candidates-perm q moment (Permᴰ.trans p r) =
    Permᴰ.trans (candidates-perm q moment p) (candidates-perm q moment r)

map-select :
    (q : PolicyRuleV5 → Bool) (f : PolicyRuleV5 → Candidate) (x : PolicyRuleV5)
    (xs : List PolicyRuleV5)
    → map f (select q (x ∷ [])) ++ map f (select q xs) ≡ map f (select q (x ∷ xs))
map-select q f x xs = ground arith

-- What the loops add to their variables.
abbrev grown : Buckets → ℕ → (denies allows : List Candidate) → Buckets
grown b n denies allows = record {
  evaluated = n + b.evaluated;
  denies = b.denies ++ denies;
  allows = b.allows ++ allows;
}

grown-grown :
    (b : Buckets) (m n : ℕ) (d a e f : List Candidate)
    → grown (grown b m d a) n e f ≡ grown b (m + n) (d ++ e) (a ++ f)
grown-grown b m n d a e f = ground (arith, append_assoc b.denies d e, append_assoc b.allows a f)

grown-nothing : (b : Buckets) → b ≡ grown b 0 [] []
grown-nothing b = ground (arith, append-nil b.denies, append-nil b.allows)

module _ (t : Texts) {J : Type 0} (request : EvaluationRequest J) where
  -- The rule matches and denies; the rule matches and does not.
  abbrev pub denying : AutomationPolicyV5 → PolicyRuleV5 → Bool
  denying policy rule = matches_request t request rule && has_deny policy rule

  abbrev pub other_match : AutomationPolicyV5 → PolicyRuleV5 → Bool
  other_match policy rule = matches_request t request rule && not (has_deny policy rule)

  add_rule-grown :
      (policy : AutomationPolicyV5) (rule : PolicyRuleV5) (b : Buckets)
      → add_rule t request policy rule b
        ≡ grown b 0
            (map (candidate policy) (select (denying policy) (rule ∷ [])))
            (map (candidate policy) (select (other_match policy) (rule ∷ [])))
  unfolding add_rule
  add_rule-grown policy rule b = ground (arith, grown-nothing b)

  add_rules-grown :
      (policy : AutomationPolicyV5) (rules : List PolicyRuleV5) (b : Buckets)
      → add_rules t request policy rules b
        ≡ grown b 0
            (map (candidate policy) (select (denying policy) rules))
            (map (candidate policy) (select (other_match policy) rules))
  unfolding add_rules
  add_rules-grown policy [] b = grown-nothing b
  add_rules-grown policy (rule ∷ rules) b =
      let ds = map (candidate policy) (select (denying policy) (rule ∷ [])) in
      let as' = map (candidate policy) (select (other_match policy) (rule ∷ [])) in
      let es = map (candidate policy) (select (denying policy) rules) in
      let fs = map (candidate policy) (select (other_match policy) rules) in
      add_rules-grown policy rules (add_rule t request policy rule b)
      ∙ ap (λ c. grown c 0 es fs) (add_rule-grown policy rule b)
      ∙ grown-grown b 0 0 ds as' es fs
      ∙ ap₂ (grown b 0) (map-select (denying policy) (candidate policy) rule rules)
          (map-select (other_match policy) (candidate policy) rule rules)

  add_policy-grown :
      (moment : ℕ) (policy : AutomationPolicyV5) (b : Buckets)
      → add_policy t request moment policy b
        ≡ grown b
            (count_if (is_live moment) (policy ∷ []))
            (candidates_of denying moment policy)
            (candidates_of other_match moment policy)
  unfolding add_policy
  add_policy-grown moment policy b = ground (
    arith,
    grown-nothing b,
    add_rules-grown policy policy.rules (record b { evaluated = suc b.evaluated }),
  )

  -- The loop collects, in the order of the policies and their rules, the denying candidates and the
  -- others, and counts the live policies.
  pub add_policies-grown :
      (moment : ℕ) (policies : List AutomationPolicyV5) (b : Buckets)
      → add_policies t request moment policies b
        ≡ grown b
            (count_if (is_live moment) policies)
            (candidates denying moment policies)
            (candidates other_match moment policies)
  unfolding add_policies
  add_policies-grown moment [] b = grown-nothing b
  add_policies-grown moment (policy ∷ policies) b =
      let n = count_if (is_live moment) policies in
      let es = candidates denying moment policies in
      let fs = candidates other_match moment policies in
      add_policies-grown moment policies (add_policy t request moment policy b)
      ∙ ap (λ c. grown c n es fs) (add_policy-grown moment policy b)
      ∙ grown-grown b (count_if (is_live moment) (policy ∷ [])) n
          (candidates_of denying moment policy) (candidates_of other_match moment policy) es fs
      ∙ ap
          (λ (k : ℕ).
            grown b k (candidates denying moment (policy ∷ policies))
              (candidates other_match moment (policy ∷ policies)))
          (ground arith)
