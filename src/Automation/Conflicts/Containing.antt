-- ===== src/Automation/Conflicts/Containing.antt =====
-- Scope entries that are found to be a subset match only what the others match.
use cyber_sage.Prelude.{
  has_slash, String, ◌≡◌, sym, subst, ◌∙◌, Bool, true, ◌||◌, Option, none, some, List, arith,
  Bool-cases, Option-cases, inl, inr, eq_iff, ◌==◌,
}
use mathlib.Core.List.{}
use cyber_sage.Prelude.Dict.{}
use cyber_sage.Prelude.TextOrder.{starts_with, starts_with_trans}
use cyber_sage.Prelude.Sorting.{any, all}
use cyber_sage.Prelude.Sorting.Laws.{any-elim, any-intro, all-elim}
use cyber_sage.Automation.Policy.{}
use cyber_sage.Automation.V5.Rules.{Texts, Value, text, other}
use cyber_sage.Automation.V5.Scope.{
  Matcher, exact, prefix, ip, entry_has_ip, match_ip, match_ci_exact, match_ci_prefix, match_by,
}
use cyber_sage.Automation.Conflicts.Overlap.{IpEntry, address, network, ip_entry_to_network}
use cyber_sage.Automation.Conflicts.Subset.{
  subset_ci_exact, subset_ci_prefix, entry_covers, ip_covers, subset_ips, subset_by,
}
use cyber_sage.Automation.Conflicts.Common.{IpLaws}
use cyber_sage.Automation.Conflicts.Overlapping.{}
use cyber_sage.Automation.Conflicts.Sharing.{Has, entry_has_ip-Has, equal_or_prefix}

-- Each entry has a related one on the other side, so what passes here has one that passes there.
covered-any :
    (q : String → String → Bool) (p r : String → Bool) (inner outer : List String)
    → ((e o : String) → p e ≡ true → q e o ≡ true → r o ≡ true)
    → all (λ (e : String). any (q e) outer) inner ≡ true
    → any p inner ≡ true
    → any r outer ≡ true
covered-any q p r inner outer f h g =
    let (e, m, pe) = any-elim p inner g in
    let (o, n, qo) = any-elim (q e) outer (all-elim (λ (e : String). any (q e) outer) e m h) in
    any-intro r o n (f e o pe qo)

module _ (t : Texts) where
  Has-entry_has_ip :
      (target : t.Address) (entry : String) (e : IpEntry t)
      → ip_entry_to_network t entry ≡ some e
      → Has t e target
      → entry_has_ip t target entry ≡ true
  unfolding entry_has_ip ip_entry_to_network Has
  Has-entry_has_ip target entry (address a) p h = elim (Bool-cases (has_slash entry)) [
    | inl s ↦ elim (Option-cases (t.ip_network entry)) [
      | inl f ↦ absurd (ground (arith, p, s, f))
      | inr (n, f) ↦ absurd (ground (arith, p, s, f))
    ]
    | inr s ↦ elim (Option-cases (t.ip_address entry)) [
      | inl f ↦ absurd (ground (arith, p, s, f))
      | inr (b, f) ↦ ground (arith, p, s, f, h)
    ]
  ]
  Has-entry_has_ip target entry (network m) p h = elim (Bool-cases (has_slash entry)) [
    | inl s ↦ elim (Option-cases (t.ip_network entry)) [
      | inl f ↦ absurd (ground (arith, p, s, f))
      | inr (n, f) ↦ ground (arith, p, s, f, h)
    ]
    | inr s ↦ elim (Option-cases (t.ip_address entry)) [
      | inl f ↦ absurd (ground (arith, p, s, f))
      | inr (b, f) ↦ absurd (ground (arith, p, s, f))
    ]
  ]

  covers-Has :
      IpLaws t
      → (outer inner : IpEntry t) (target : t.Address)
      → entry_covers t (some outer) (some inner) ≡ true
      → Has t inner target
      → Has t outer target
  unfolding entry_covers Has
  covers-Has laws (address a) (address b) x c h =
      subst (λ y. t.same_address y a ≡ true)
        (laws.same_address-eq a b c ∙ sym (laws.same_address-eq x b h)) (laws.same_address_refl a)
  covers-Has laws (network n) (address b) x c h =
      subst (λ y. t.contains n y ≡ true) (sym (laws.same_address-eq x b h)) c
  covers-Has laws (address a) (network m) x c h = absurd (ground (arith, c))
  covers-Has laws (network n) (network m) x c h =
      laws.subnet_contains m n x (ground (arith, c, Option-cases (t.subnet_of m n))) h

  nothing-covers : (inner : Option (IpEntry t)) → ¬ (entry_covers t none inner ≡ true)
  unfolding entry_covers
  nothing-covers none h = absurd (ground arith)
  nothing-covers (some (address a)) h = absurd (ground arith)
  nothing-covers (some (network n)) h = absurd (ground arith)

  entry_has_ip-covers :
      IpLaws t
      → (x : t.Address) (e o : String) → entry_has_ip t x e ≡ true
      → ip_covers t o e ≡ true
      → entry_has_ip t x o ≡ true
  unfolding ip_covers
  entry_has_ip-covers laws x e o p q =
      let (i, pi, hi) = entry_has_ip-Has t x e p in
      elim (Option-cases (ip_entry_to_network t o)) [
        | inl f ↦
            absurd (
              nothing-covers _ (subst (λ k. entry_covers t k (ip_entry_to_network t e) ≡ true) f q))
        | inr (j, f) ↦ Has-entry_has_ip x o j f (
            covers-Has laws j i x
              (subst (λ k. entry_covers t (some j) k ≡ true) pi
                (subst (λ k. entry_covers t k (ip_entry_to_network t e) ≡ true) f q))
              hi)
      ]

  module _ {J : Type 0} (laws : IpLaws t) (inner outer : List String) where
    match_ci_exact-subset :
        (v : Option (Value J))
        → subset_ci_exact t inner outer ≡ true
        → match_ci_exact t inner v ≡ true
        → match_ci_exact t outer v ≡ true
    unfolding subset_ci_exact match_ci_exact
    match_ci_exact-subset none h g = absurd (ground arith)
    match_ci_exact-subset (some (other j)) h g = absurd (ground arith)
    match_ci_exact-subset (some (text s)) h g = elim (Bool-cases (s == "")) [
      | inl e ↦ absurd (ground (arith, g, e))
      | inr e ↦ rw e (
          covered-any (λ (e o : String). t.lower o == t.lower e)
            (λ (e : String). t.lower e == t.lower s) (λ (o : String). t.lower o == t.lower s) inner
            outer
            (λ e o p q. ground (
              arith,
              p,
              q,
              eq_iff (t.lower e) (t.lower s),
              eq_iff (t.lower o) (t.lower e),
              eq_iff (t.lower o) (t.lower s),
            ))
            h (ground (arith, g, e)))
    ]

    match_ci_prefix-subset :
        (v : Option (Value J))
        → subset_ci_prefix t inner outer ≡ true
        → match_ci_prefix t inner v ≡ true
        → match_ci_prefix t outer v ≡ true
    unfolding subset_ci_prefix match_ci_prefix
    match_ci_prefix-subset none h g = absurd (ground arith)
    match_ci_prefix-subset (some (other j)) h g = absurd (ground arith)
    match_ci_prefix-subset (some (text s)) h g = elim (Bool-cases (s == "")) [
      | inl e ↦ absurd (ground (arith, g, e))
      | inr e ↦ rw e (
          covered-any
            (λ (e o : String). t.lower e == t.lower o || starts_with (t.lower e) (t.lower o))
            (λ (e : String). t.lower s == t.lower e || starts_with (t.lower s) (t.lower e))
            (λ (o : String). t.lower s == t.lower o || starts_with (t.lower s) (t.lower o)) inner
            outer
            (λ e o p q.
              let through =
                starts_with_trans (t.lower s) (t.lower e) (t.lower o)
                  (equal_or_prefix t (t.lower s) (t.lower e) p)
                  (equal_or_prefix t (t.lower e) (t.lower o) q) in
              ground (arith, through))
            h (ground (arith, g, e)))
    ]

    match_ip-subset :
        (v : Option (Value J))
        → subset_ips t inner outer ≡ true
        → match_ip t inner v ≡ true
        → match_ip t outer v ≡ true
    unfolding subset_ips match_ip
    match_ip-subset none h g = absurd (ground arith)
    match_ip-subset (some (other j)) h g = absurd (ground arith)
    match_ip-subset (some (text s)) h g = elim (Bool-cases (s == "")) [
      | inl e ↦ absurd (ground (arith, g, e))
      | inr e ↦ elim (Option-cases (t.ip_address s)) [
        | inl f ↦ absurd (ground (arith, g, e, f))
        | inr (x, f) ↦
            rw (e, f)
              (covered-any (λ (i o : String). ip_covers t o i) (entry_has_ip t x) (entry_has_ip t x)
                inner outer (entry_has_ip-covers laws x) h (ground (arith, g, e, f)))
      ]
    ]

    pub match_by-subset :
        (m : Matcher) (v : Option (Value J))
        → subset_by t (some m) inner outer ≡ true
        → match_by t m inner v ≡ true
        → match_by t m outer v ≡ true
    unfolding subset_by match_by
    match_by-subset exact = match_ci_exact-subset
    match_by-subset prefix = match_ci_prefix-subset
    match_by-subset ip = match_ip-subset
