-- ===== src/Automation/V5/Accepted.antt =====
-- What a policy that passes `validate_policy` is known to be.
use cyber_sage.Prelude.{
  ℕ, ◌*◌, ◌≤◌, String, ◌≡◌, ◌≢◌, Bool, true, false, ◌||◌, List, [], ◌∷◌, length, arith, All, inl,
  inr, eq_iff, ◌==◌, ok, Result-cases, Option, none, some, leb, each, each-ok, guard-ok, then-ok,
  has_length_within, has_dots,
}
use cyber_sage.Prelude.Sorting.{any}
use cyber_sage.Automation.V5.Rules.{Texts, Scope, PolicyRuleV5, AutomationPolicyV5}
use cyber_sage.Automation.V5.Validation.{
  unknown_scope_key, too_many_entries, matches_id, has_length_of, is_severity, is_scope_key,
  is_path_key, is_ip_entry, entry_valid, ip_valid, path_valid, keep, dimension_valid, normalize,
  validate_scope, validate_rule, validate_rules, validate_policy,
}

abbrev pub is_known : (String × String → String) → List (String × String) → String → Bool
is_known part known value = value == "*" || any (λ (a : String × String). part a == value) known

-- A dimension of a scope: a known key, at most 100 entries, each of at most 512 characters and not
-- empty, an address or a network where the key asks for one, and a path that does not go up.
pub record IsValidDimension (t : Texts) (key : String) (values : List String) : Type 0 where
  pub key_known : is_scope_key key ≡ true
  pub few_entries : length values ≤ 100
  pub entries_sized : All (λ e. has_length_of 512 e ≡ true) values
  pub entries_addresses : key ≡ "destination_ips" → All (λ e. is_ip_entry t e ≡ true) values
  pub entries_inside : is_path_key key ≡ true → All (λ e. has_dots e ≡ false) values

abbrev pub IsValidScope : Texts → Scope → Type 0
IsValidScope t [] = Unit
IsValidScope t ((key, values) ∷ scope) = IsValidDimension t key values × IsValidScope t scope

abbrev pub IsValidTarget : Texts → Option Scope → Type 0
IsValidTarget t none = Unit
IsValidTarget t (some scope) = IsValidScope t scope

-- A rule that the documented limits allow.
pub record IsValidRule (t : Texts) (point : ℕ) (known : List (String × String)) (r : PolicyRuleV5)
    : Type 0 where
  pub id_matches : matches_id r.rule_id ≡ true
  pub type_sized : has_length_of 64 r.action_type ≡ true
  pub name_sized : has_length_of 64 r.action_name ≡ true
  pub type_known : is_known (λ a. a.0) known r.action_type ≡ true
  pub name_known : is_known (λ a. a.1) known r.action_name ≡ true
  pub risks_ordered : r.min_risk_score ≤ r.max_risk_score
  pub risk_bounded : r.max_risk_score ≤ 100 * point
  pub severity_known : (s : String) → r.incident_severity ≡ some s → is_severity s ≡ true
  pub priority_bounded : r.priority ≤ 1000
  pub executions_positive : (n : ℕ) → r.max_executions_per_hour ≡ some n → 1 ≤ n
  pub target_valid : IsValidTarget t r.target_scope

All-imp :
    {P Q : String → Type 0} → ((e : String) → P e → Q e) → (es : List String) → All P es → All Q es
All-imp f [] h = tt
All-imp f (e ∷ es) (h, hs) = (f e h, All-imp f es hs)

dimension_valid-IsValidDimension :
    (t : Texts) (key : String) (values : List String)
    → dimension_valid t key values ≡ ok tt
    → IsValidDimension t key values
unfolding dimension_valid
dimension_valid-IsValidDimension t key values h =
    let (known, h1) = guard-ok (is_scope_key key) (unknown_scope_key key) _ _ h in
    let (few, h2) = guard-ok (leb (length values) 100) (too_many_entries key) _ _ h1 in
    let (u, sized, h3) = then-ok (each (entry_valid key) values) _ _ h2 in
    let (v, addressed, paths) = then-ok (each (ip_valid t key) values) _ _ h3 in
    record {
      key_known = known;
      few_entries = ground (arith, few);
      entries_sized =
          All-imp (λ e g. ground (arith, g)) values (each-ok (entry_valid key) values sized);
      entries_addresses = λ same.
          All-imp (λ e g. ground (arith, g, (eq_iff key "destination_ips").1 same)) values
            (each-ok (ip_valid t key) values addressed);
      entries_inside = λ is_path.
          All-imp (λ e g. ground (arith, g, is_path)) values
            (each-ok (path_valid key) values paths);
    }

normalize-IsValidScope :
    (t : Texts) (scope acc n : Scope) → normalize t scope acc ≡ ok n → IsValidScope t scope
unfolding normalize
normalize-IsValidScope t [] acc n h = tt
normalize-IsValidScope t ((key, values) ∷ scope) acc n h =
    let (u, valid, rest) = then-ok (dimension_valid t key values) _ _ h in
    (
      dimension_valid-IsValidDimension t key values valid,
      normalize-IsValidScope t scope (keep key values acc) n rest,
    )

validate_scope-IsValidTarget :
    (t : Texts) (target : Option Scope) (n : Scope)
    → validate_scope t target ≡ ok n
    → IsValidTarget t target
unfolding validate_scope
validate_scope-IsValidTarget t none n h = tt
validate_scope-IsValidTarget t (some scope) n h = normalize-IsValidScope t scope [] n h

weaker :
    (id : String) (seen : List String) (rs : List PolicyRuleV5)
    → All (λ r. any (λ (i : String). i == r.rule_id) (id ∷ seen) ≡ false) rs
    → All (λ r. any (λ (i : String). i == r.rule_id) seen ≡ false) rs
weaker id seen [] a = tt
weaker id seen (r ∷ rs) (h, a) = (ground (arith, h), weaker id seen rs a)

distinct :
    (id : String) (seen : List String) (rs : List PolicyRuleV5)
    → All (λ r. any (λ (i : String). i == r.rule_id) (id ∷ seen) ≡ false) rs
    → All (λ r. id ≢ r.rule_id) rs
distinct id seen [] a = tt
distinct id seen (r ∷ rs) (h, a) =
    (λ e. absurd (ground (arith, h, (eq_iff id r.rule_id).1 e)), distinct id seen rs a)

module _ (t : Texts) (point : ℕ) (known : List (String × String)) where
  validate_rule-target :
      (r v : PolicyRuleV5) → validate_rule t point known r ≡ ok v → IsValidTarget t r.target_scope
  unfolding validate_rule
  validate_rule-target r v h = elim (Result-cases (validate_scope t r.target_scope)) [
    | inr (x, e) ↦ absurd (ground (arith, h, e))
    | inl (n, e) ↦ validate_scope-IsValidTarget t r.target_scope n e
  ]

  validate_rule-IsValidRule :
      (r v : PolicyRuleV5) → validate_rule t point known r ≡ ok v → IsValidRule t point known r
  unfolding validate_rule
  validate_rule-IsValidRule r v h = record {
    id_matches = ground (arith, h);
    type_sized = ground (arith, h);
    name_sized = ground (arith, h);
    type_known = ground (arith, h);
    name_known = ground (arith, h);
    risks_ordered = ground (arith, h);
    risk_bounded = ground (arith, h);
    severity_known = λ s e. ground (arith, h, e);
    priority_bounded = ground (arith, h);
    executions_positive = λ n e. ground (arith, h, e);
    target_valid = validate_rule-target r v h;
  }

  -- One round of the loop that is passed.
  rules_step :
      (r : PolicyRuleV5) (rs vs : List PolicyRuleV5) (seen : List String)
      → validate_rules t point known (r ∷ rs) seen ≡ ok vs
      → IsValidRule t point known r
        × (any (λ (id : String). id == r.rule_id) seen ≡ false)
        × ((ws : List PolicyRuleV5) × (validate_rules t point known rs (r.rule_id ∷ seen) ≡ ok ws))
  unfolding validate_rules
  rules_step r rs vs seen h = elim (Result-cases (validate_rule t point known r)) [
    | inr (x, e) ↦ absurd (ground (arith, h, e))
    | inl (v, e) ↦ elim (Result-cases (validate_rules t point known rs (r.rule_id ∷ seen))) [
      | inr (x, f) ↦ absurd (ground (arith, h, e, f))
      | inl (ws, f) ↦ (validate_rule-IsValidRule r v e, ground (arith, h, e, f), (ws, f))
    ]
  ]

  rules_unseen :
      (rs vs : List PolicyRuleV5) (seen : List String)
      → validate_rules t point known rs seen ≡ ok vs
      → All (λ r. any (λ (id : String). id == r.rule_id) seen ≡ false) rs
  rules_unseen [] vs seen h = tt
  rules_unseen (r ∷ rs) vs seen h =
      let (v, u, (ws, f)) = rules_step r rs vs seen h in
      (u, weaker r.rule_id seen rs (rules_unseen rs ws (r.rule_id ∷ seen) f))

  -- The rules are valid and no two have the same identifier.
  abbrev pub AreValidRules : List PolicyRuleV5 → Type 0
  AreValidRules [] = Unit
  AreValidRules (r ∷ rs) =
      IsValidRule t point known r × All (λ s. r.rule_id ≢ s.rule_id) rs × AreValidRules rs

  validate_rules-AreValidRules :
      (rs vs : List PolicyRuleV5) (seen : List String)
      → validate_rules t point known rs seen ≡ ok vs
      → AreValidRules rs
  validate_rules-AreValidRules [] vs seen h = tt
  validate_rules-AreValidRules (r ∷ rs) vs seen h =
      let (v, u, (ws, f)) = rules_step r rs vs seen h in
      (
        v,
        distinct r.rule_id seen rs (rules_unseen rs ws (r.rule_id ∷ seen) f),
        validate_rules-AreValidRules rs ws (r.rule_id ∷ seen) f,
      )

  -- A policy that `validate_policy` lets through has an identifier of the required form, a name of 1
  -- to 255 characters, a description of at most 4096, a version, a priority of at most 1000, at most
  -- 100 rules, and rules that have different identifiers and are valid: a rule's identifier, the
  -- lengths and the registration of its action, its risks, severity, priority and cap of executions,
  -- and of its scope the keys, the number and the length of the entries, the addresses and the paths.
  pub validate_policy-AreValidRules :
      (policy v : AutomationPolicyV5)
      → validate_policy t point known policy ≡ ok v
      → (matches_id policy.policy_id ≡ true)
        × (has_length_of 255 policy.name ≡ true)
        × (has_length_within 4096 policy.description ≡ true)
        × (1 ≤ policy.version)
        × (policy.priority ≤ 1000)
        × (length policy.rules ≤ 100)
        × AreValidRules policy.rules
  unfolding validate_policy
  validate_policy-AreValidRules policy v h =
      elim (Result-cases (validate_rules t point known policy.rules [])) [
        | inr (x, e) ↦ absurd (ground (arith, h, e))
        | inl (vs, e) ↦ (
          ground (arith, h),
          ground (arith, h),
          ground (arith, h),
          ground (arith, h),
          ground (arith, h),
          ground (arith, h),
          validate_rules-AreValidRules policy.rules vs [] e,
        )
      ]
