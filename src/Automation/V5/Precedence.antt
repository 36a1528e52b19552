-- ===== src/Automation/V5/Precedence.antt =====
-- `_candidate_sort_key` of guardian/automation/policy_v5.py and the order of its tuples.
use cyber_sage.Prelude.{
  ℕ, String, ◌≡◌, Bool, true, false, ◌&&◌, ltb, nat_eq, if◌then◌else◌, ◌==◌, arith, eq_iff,
  Bool-cases, inl, inr,
}
use cyber_sage.Prelude.TextOrder.{text_leb, text_leb_total, text_leb_trans, text_leb_antisymm}
use cyber_sage.Prelude.Sorting.{Precedence}
use cyber_sage.Automation.V5.Rules.{PolicyRuleV5, AutomationPolicyV5}

-- The three numbers stand for their negatives.
pub record Key : Type 0 where
  pub rule_priority : ℕ
  pub specificity : ℕ
  pub policy_priority : ℕ
  pub policy_id : String
  pub rule_id : String

unfoldable pub candidate_sort_key : AutomationPolicyV5 → PolicyRuleV5 → ℕ → Key
candidate_sort_key policy rule specificity = record {
  rule_priority = rule.priority;
  specificity = specificity;
  policy_priority = policy.priority;
  policy_id = policy.policy_id;
  rule_id = rule.rule_id;
}

-- `s < t or s == t and rest`
abbrev pub text_then : String → String → Bool → Bool
text_then s t rest = if s == t then rest else text_leb s t

abbrev pub larger_then : ℕ → ℕ → Bool → Bool
larger_then a b rest = if ltb b a then true else nat_eq a b && rest

-- `k <= l` on tuples
unfoldable pub key_leb : Key → Key → Bool
key_leb k l = larger_then k.rule_priority l.rule_priority (
    larger_then k.specificity l.specificity (
      larger_then k.policy_priority l.policy_priority
        (text_then k.policy_id l.policy_id (text_leb k.rule_id l.rule_id))))

-- Where one number of the tuples decides, or leaves it to the rest.
larger_then-total :
    (a b : ℕ) (r s : Bool)
    → (r ≡ false → s ≡ true)
    → larger_then a b r ≡ false
    → larger_then b a s ≡ true
larger_then-total a b r false f h = elim (Bool-cases r) [
  | inl e ↦ ground arith
  | inr e ↦ absurd (ground (arith, f e))
]
larger_then-total a b r true f h = ground arith

larger_then_trans :
    (a b c : ℕ) (r s u : Bool)
    → (r ≡ true → s ≡ true → u ≡ true)
    → larger_then a b r ≡ true
    → larger_then b c s ≡ true
    → larger_then a c u ≡ true
larger_then_trans a b c r s u f h g = ground (arith, f)

text_then-total :
    (x y : String) (r s : Bool)
    → (r ≡ false → s ≡ true)
    → text_then x y r ≡ false
    → text_then y x s ≡ true
text_then-total x y r s f h = ground (arith, f, eq_iff x y, eq_iff y x, text_leb_total x y)

text_then_trans :
    (x y z : String) (r s u : Bool)
    → (r ≡ true → s ≡ true → u ≡ true)
    → text_then x y r ≡ true
    → text_then y z s ≡ true
    → text_then x z u ≡ true
text_then_trans x y z r s u f h g =
    ground
      (arith, f, eq_iff x y, eq_iff y z, eq_iff x z, text_leb_trans x y z, text_leb_antisymm x y)

pub key_leb-total : (k l : Key) → key_leb k l ≡ false → key_leb l k ≡ true
unfolding key_leb
key_leb-total k l = larger_then-total k.rule_priority l.rule_priority _ _ (
    larger_then-total k.specificity l.specificity _ _ (
      larger_then-total k.policy_priority l.policy_priority _ _
        (text_then-total k.policy_id l.policy_id _ _ (text_leb_total k.rule_id l.rule_id))))

pub key_leb_trans : (k l m : Key) → key_leb k l ≡ true → key_leb l m ≡ true → key_leb k m ≡ true
unfolding key_leb
key_leb_trans k l m = larger_then_trans k.rule_priority l.rule_priority m.rule_priority _ _ _ (
    larger_then_trans k.specificity l.specificity m.specificity _ _ _ (
      larger_then_trans k.policy_priority l.policy_priority m.policy_priority _ _ _ (
        text_then_trans k.policy_id l.policy_id m.policy_id _ _ _
          (text_leb_trans k.rule_id l.rule_id m.rule_id))))

-- `sorted(policies, key=lambda p: p.policy_id)`
abbrev pub by_policy_id : Precedence AutomationPolicyV5
by_policy_id = record {
  before = λ p q. text_leb p.policy_id q.policy_id;
  total = λ p q. text_leb_total p.policy_id q.policy_id;
  trans = λ p q r. text_leb_trans p.policy_id q.policy_id r.policy_id;
}

pub key_leb_antisymm :
    (k l : Key)
    → key_leb k l ≡ true
    → key_leb l k ≡ true
    → (k.policy_id ≡ l.policy_id) × (k.rule_id ≡ l.rule_id)
unfolding key_leb
key_leb_antisymm k l h g =
    let p : k.policy_id ≡ l.policy_id = ground (
      arith,
      h,
      g,
      eq_iff k.policy_id l.policy_id,
      eq_iff l.policy_id k.policy_id,
      text_leb_antisymm k.policy_id l.policy_id,
    ) in
    (
      p,
      text_leb_antisymm k.rule_id l.rule_id (ground (arith, h, p, eq_iff k.policy_id l.policy_id))
          (ground (arith, g, p, eq_iff l.policy_id k.policy_id)),
    )

-- `sorted(texts)`
abbrev pub by_text : Precedence String
by_text = record { before = text_leb; total = text_leb_total; trans = text_leb_trans }
