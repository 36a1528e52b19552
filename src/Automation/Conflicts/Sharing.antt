-- ===== src/Automation/Conflicts/Sharing.antt =====
-- Two scope entries that match one value meet.
use cyber_sage.Prelude.{
  has_slash, String, ◌≡◌, refl, sym, ap, subst, ◌∙◌, Bool, true, ◌||◌, Option, none, some, List,
  arith, Bool-cases, Option-cases, inl, inr, eq_iff, ◌==◌,
}
use mathlib.Core.List.{}
use cyber_sage.Prelude.Dict.{}
use cyber_sage.Prelude.TextOrder.{starts_with, starts_with_either, starts_with_refl}
use cyber_sage.Prelude.Sorting.{any}
use cyber_sage.Prelude.Sorting.Laws.{any-elim, any-intro}
use cyber_sage.Automation.Policy.{}
use cyber_sage.Automation.V5.Rules.{Texts, Value, text, other}
use cyber_sage.Automation.V5.Scope.{
  Matcher, exact, prefix, ip, entry_has_ip, match_ip, match_ci_exact, match_ci_prefix, match_by,
}
use cyber_sage.Automation.Conflicts.Overlap.{
  IpEntry, address, network, ip_entry_to_network, parsed_meet, entries_meet, ip_entries_overlap,
  overlap_ci_exact, overlap_ci_prefix, overlap_by,
}
use cyber_sage.Automation.Conflicts.Common.{IpLaws}

module _ (t : Texts) where
  -- The address is the entry's, or in its network.
  unfoldable pub Has : IpEntry t → t.Address → Type 0
  Has (address a) target = t.same_address target a ≡ true
  Has (network n) target = t.contains n target ≡ true

  pub entry_has_ip-Has :
      (target : t.Address) (entry : String)
      → entry_has_ip t target entry ≡ true
      → (e : IpEntry t) × (ip_entry_to_network t entry ≡ some e) × Has e target
  unfolding entry_has_ip ip_entry_to_network Has
  entry_has_ip-Has target entry h = elim (Bool-cases (has_slash entry)) [
    | inl s ↦ elim (Option-cases (t.ip_network entry)) [
      | inl e ↦ absurd (ground (arith, h, s, e))
      | inr (n, e) ↦ (network n, ground (arith, s, e), ground (arith, h, s, e))
    ]
    | inr s ↦ elim (Option-cases (t.ip_address entry)) [
      | inl e ↦ absurd (ground (arith, h, s, e))
      | inr (a, e) ↦ (address a, ground (arith, s, e), ground (arith, h, s, e))
    ]
  ]

  match_ip-elim :
      {J : Type 0} (entries : List String) (v : Option (Value J))
      → match_ip t entries v ≡ true
      → (target : t.Address) × (s : String) × (v ≡ some (text s))
        × (t.ip_address s ≡ some target)
        × (any (entry_has_ip t target) entries ≡ true)
  unfolding match_ip
  match_ip-elim entries none h = absurd (ground arith)
  match_ip-elim entries (some (other j)) h = absurd (ground arith)
  match_ip-elim entries (some (text s)) h = elim (Option-cases (t.ip_address s)) [
    | inl e ↦ absurd (ground (arith, h, e))
    | inr (target, e) ↦ (target, s, refl, e, ground (arith, h, e))
  ]

  entries_meet-Has :
      IpLaws t
      → (e f : IpEntry t) (target : t.Address) → Has e target
      → Has f target
      → entries_meet t e f ≡ true
  unfolding entries_meet Has
  entries_meet-Has laws (address a) (address b) x h g = ground (
    arith,
    h,
    g,
    laws.same_address-eq x a h,
    laws.same_address-eq x b g,
    laws.same_address_refl x,
  )
  entries_meet-Has laws (network n) (address b) x h g =
      subst (λ c. t.contains n c ≡ true) (laws.same_address-eq x b g) h
  entries_meet-Has laws (address a) (network m) x h g =
      subst (λ c. t.contains m c ≡ true) (laws.same_address-eq x a h) g
  entries_meet-Has laws (network n) (network m) x h g = laws.overlaps_common n m x h g

  match_ci_exact-elim :
      {J : Type 0} (entries : List String) (v : Option (Value J))
      → match_ci_exact t entries v ≡ true
      → (s : String) × (v ≡ some (text s))
        × (any (λ (entry : String). t.lower entry == t.lower s) entries ≡ true)
  unfolding match_ci_exact
  match_ci_exact-elim entries none h = absurd (ground arith)
  match_ci_exact-elim entries (some (other j)) h = absurd (ground arith)
  match_ci_exact-elim entries (some (text s)) h = (s, refl, ground (arith, h))

  match_ci_prefix-elim :
      {J : Type 0} (entries : List String) (v : Option (Value J))
      → match_ci_prefix t entries v ≡ true
      → (s : String) × (v ≡ some (text s))
        × (any
              (λ (entry : String).
                t.lower s == t.lower entry || starts_with (t.lower s) (t.lower entry))
              entries
            ≡ true)
  unfolding match_ci_prefix
  match_ci_prefix-elim entries none h = absurd (ground arith)
  match_ci_prefix-elim entries (some (other j)) h = absurd (ground arith)
  match_ci_prefix-elim entries (some (text s)) h = (s, refl, ground (arith, h))

  -- The second list's value is the first one's.
  same_value :
      {J : Type 0} {v : Option (Value J)} {s r : String}
      → v ≡ some (text s)
      → v ≡ some (text r)
      → r ≡ s
  same_value e f = ground (arith, sym e ∙ f)

  same_parse :
      {J : Type 0} {v : Option (Value J)} {s r : String} {x y : t.Address}
      → v ≡ some (text s)
      → v ≡ some (text r)
      → t.ip_address s ≡ some x
      → t.ip_address r ≡ some y
      → y ≡ x
  same_parse e f p q = ground (arith, sym p ∙ ap t.ip_address (sym (same_value e f)) ∙ q)

  -- What two lists of entries match, they both contain something like: the pair is found by `any`.
  pairs-any :
      (q : String → String → Bool) (p r : String → Bool) (xs ys : List String)
      → ((x y : String) → p x ≡ true → r y ≡ true → q x y ≡ true)
      → any p xs ≡ true
      → any r ys ≡ true
      → any (λ (x : String). any (q x) ys) xs ≡ true
  pairs-any q p r xs ys f h g =
      let (x, mx, px) = any-elim p xs h in
      let (y, my, ry) = any-elim r ys g in
      any-intro (λ (x : String). any (q x) ys) x mx (any-intro (q x) y my (f x y px ry))

  pub equal_or_prefix : (s x : String) → (s == x || starts_with s x) ≡ true → starts_with s x ≡ true
  equal_or_prefix s x h = elim (Bool-cases (s == x)) [
    | inl e ↦ subst (λ w. starts_with s w ≡ true) ((eq_iff s x).0 e) (starts_with_refl s)
    | inr e ↦ ground (arith, h, e)
  ]

  prefixes_meet :
      (s x y : String)
      → (s == x || starts_with s x) ≡ true
      → (s == y || starts_with s y) ≡ true
      → (x == y || starts_with x y || starts_with y x) ≡ true
  prefixes_meet s x y h g =
      elim (starts_with_either s x y (equal_or_prefix s x h) (equal_or_prefix s y g)) [
        | inl e ↦ ground (arith, e)
        | inr e ↦ ground (arith, e)
      ]

  module _ {J : Type 0} (laws : IpLaws t) (as' bs : List String) (v : Option (Value J)) where
    match_ci_exact-overlap :
        match_ci_exact t as' v ≡ true
        → match_ci_exact t bs v ≡ true
        → overlap_ci_exact t as' bs ≡ true
    unfolding overlap_ci_exact
    match_ci_exact-overlap h g =
        let (s, e, a) = match_ci_exact-elim as' v h in
        let (r, f, b) = match_ci_exact-elim bs v g in
        pairs-any (λ (x y : String). t.lower y == t.lower x)
          (λ (x : String). t.lower x == t.lower s) (λ (y : String). t.lower y == t.lower r) as' bs
          (λ x y p q. ground (
            arith,
            p,
            q,
            eq_iff (t.lower x) (t.lower s),
            eq_iff (t.lower y) (t.lower r),
            eq_iff (t.lower y) (t.lower x),
            ap t.lower (same_value e f),
          ))
          a b

    match_ci_prefix-overlap :
        match_ci_prefix t as' v ≡ true
        → match_ci_prefix t bs v ≡ true
        → overlap_ci_prefix t as' bs ≡ true
    unfolding overlap_ci_prefix
    match_ci_prefix-overlap h g =
        let (s, e, a) = match_ci_prefix-elim as' v h in
        let (r, f, b) = match_ci_prefix-elim bs v g in
        pairs-any
          (λ (x y : String).
            t.lower x == t.lower y
            || starts_with (t.lower x) (t.lower y)
            || starts_with (t.lower y) (t.lower x))
          (λ (x : String). t.lower s == t.lower x || starts_with (t.lower s) (t.lower x))
          (λ (y : String). t.lower r == t.lower y || starts_with (t.lower r) (t.lower y)) as' bs
          (λ x y p q. prefixes_meet (t.lower s) (t.lower x) (t.lower y) p (
            subst (λ w. (t.lower w == t.lower y || starts_with (t.lower w) (t.lower y)) ≡ true)
              (same_value e f) q))
          a b

    match_ip-overlap :
        match_ip t as' v ≡ true → match_ip t bs v ≡ true → ip_entries_overlap t as' bs ≡ true
    unfolding ip_entries_overlap
    match_ip-overlap h g =
        let (x, s, e, p, a) = match_ip-elim as' v h in
        let (y, r, f, q, b) = match_ip-elim bs v g in
        pairs-any
          (λ (i j : String). parsed_meet t (ip_entry_to_network t i) (ip_entry_to_network t j))
          (entry_has_ip t x) (entry_has_ip t y) as' bs
          (λ i j m n.
            let (ei, pi, hi) = entry_has_ip-Has x i m in
            let (ej, pj, hj) = entry_has_ip-Has y j n in
            rw (pi, pj) (entries_meet-Has laws ei ej x hi (subst (Has ej) (same_parse e f p q) hj)))
          a b

    pub match_by-overlap :
        (m : Matcher)
        → match_by t m as' v ≡ true
        → match_by t m bs v ≡ true
        → overlap_by t m as' bs ≡ true
    unfolding match_by overlap_by
    match_by-overlap exact h g = match_ci_exact-overlap h g
    match_by-overlap prefix h g = match_ci_prefix-overlap h g
    match_by-overlap ip h g = match_ip-overlap h g
