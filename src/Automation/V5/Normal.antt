-- ===== src/Automation/V5/Normal.antt =====
-- What validation accepts, and that the scope it normalizes matches the same targets.
use cyber_sage.Prelude.{
  String, ◌≡◌, refl, sym, ap, subst, ◌∙◌, Bool, true, false, none, some, List, [], ◌∷◌, arith,
  Bool-cases, inl, inr, eq_iff, if◌then◌else◌, ◌==◌, ok, Result-cases, ok-injective,
}
use mathlib.Core.List.{}
use cyber_sage.Prelude.Dict.{Dict, lookup, lookup-insert, Unique}
use cyber_sage.Automation.V5.Rules.{Texts, Scope, Value}
use cyber_sage.Automation.V5.Scope.{entries_of, scope_matches_target, passes_check}
use cyber_sage.Automation.V5.Validation.{dimension_valid, keep, normalize, validate_scope}
use cyber_sage.Automation.Conflicts.Overlap.{}
use cyber_sage.Automation.Conflicts.Common.{
  Check, Passes, scope_matches-Passes, Passes-scope_matches,
}

-- The entries of a key: those of the first scope, or where it has none those of the second.
abbrev or_entries : List String → List String → List String
or_entries [] es = es
or_entries (v ∷ vs) es = v ∷ vs

-- What one round of the loop writes.
entries_of-keep :
    (key k : String) (values : List String) (acc : Scope)
    → entries_of (keep key values acc) k
      ≡ (if key == k then or_entries values (entries_of acc k) else entries_of acc k)
unfolding entries_of
entries_of-keep key k [] acc = ground arith
entries_of-keep key k (v ∷ vs) acc = ground (arith, lookup-insert key k (v ∷ vs) acc)

entries_of-fresh :
    (key k : String) (scope : Scope)
    → lookup key scope ≡ none
    → (key == k) ≡ true
    → entries_of scope k ≡ []
unfolding entries_of
entries_of-fresh key k scope fresh e =
    ground (arith, subst (λ j. lookup j scope ≡ none) ((eq_iff key k).0 e) fresh)

entries_of-same :
    (key k : String) (values : List String) (scope : Scope)
    → (key == k) ≡ true
    → entries_of ((key, values) ∷ scope) k ≡ values
unfolding entries_of lookup
entries_of-same key k values scope e = ground (arith, e)

entries_of-other :
    (key k : String) (values : List String) (scope : Scope)
    → (key == k) ≡ false
    → entries_of ((key, values) ∷ scope) k ≡ entries_of scope k
unfolding entries_of lookup
entries_of-other key k values scope e = ground (arith, e)

-- A key that is read first is not read again.
entries_of-cons :
    (key k : String) (values : List String) (scope : Scope) (es : List String)
    → lookup key scope ≡ none
    → or_entries (entries_of scope k) (if key == k then or_entries values es else es)
      ≡ or_entries (entries_of ((key, values) ∷ scope) k) es
entries_of-cons key k values scope es fresh = elim (Bool-cases (key == k)) [
  | inl e ↦
      rw e
        (ground (arith, entries_of-same key k values scope e, entries_of-fresh key k scope fresh e))
  | inr e ↦ rw e (ground (arith, entries_of-other key k values scope e))
]

entries_of-nil : (k : String) → entries_of [] k ≡ []
unfolding entries_of lookup
entries_of-nil k = refl

or_entries-nil : (es : List String) (k : String) → or_entries es (entries_of [] k) ≡ es
unfolding entries_of lookup
or_entries-nil [] k = refl
or_entries-nil (e ∷ es) k = refl

same_truth : {a b : Bool} → (a ≡ true → b ≡ true) → (b ≡ true → a ≡ true) → a ≡ b
same_truth {a = true} {b = true} f g = refl
same_truth {a = true} {b = false} f g = sym (f refl)
same_truth {a = false} {b = true} f g = g refl
same_truth {a = false} {b = false} f g = refl

module _ (t : Texts) where
  normalize-entries :
      (scope acc n : Scope) (k : String)
      → Unique scope
      → normalize t scope acc ≡ ok n
      → entries_of n k ≡ or_entries (entries_of scope k) (entries_of acc k)
  unfolding normalize
  normalize-entries [] acc n k u h =
      ground (arith, h, entries_of-nil k, ap (λ m. entries_of m k) (ok-injective h))
  normalize-entries ((key, values) ∷ scope) acc n k (fresh, u) h =
      elim (Result-cases (dimension_valid t key values)) [
        | inr (x, e) ↦ absurd (ground (arith, h, e))
        | inl (x, e) ↦
            normalize-entries scope (keep key values acc) n k u (ground (arith, h, e))
            ∙ ap (or_entries (entries_of scope k)) (entries_of-keep key k values acc)
            ∙ entries_of-cons key k values scope (entries_of acc k) fresh
      ]

  normalized-entries :
      (scope n : Scope) (k : String)
      → Unique scope
      → normalize t scope [] ≡ ok n
      → entries_of n k ≡ entries_of scope k
  normalized-entries scope n k u h =
      normalize-entries scope [] n k u h ∙ or_entries-nil (entries_of scope k) k

  Passes-as :
      {J : Type 0} (target : Dict (Value J)) (a b : Scope) (c : Check)
      → entries_of a c.0 ≡ entries_of b c.0
      → Passes t target a c
      → Passes t target b c
  Passes-as target a b c e p =
      subst (λ (es : List String). passes_check t c.2 es (lookup c.1 target) ≡ true) e p

  -- A scope that passes validation and its normalized copy match the same targets.
  pub validate_scope-matches :
      {J : Type 0} (target : Dict (Value J)) (scope n : Scope)
      → Unique scope
      → validate_scope t (some scope) ≡ ok n
      → scope_matches_target t (some n) target ≡ scope_matches_target t (some scope) target
  unfolding validate_scope
  validate_scope-matches target scope n u h =
      same_truth
        (λ m. Passes-scope_matches t target (some scope) (λ c i.
          Passes-as target n scope c (normalized-entries scope n c.0 u h)
            (scope_matches-Passes t target (some n) c i m)))
        (λ m. Passes-scope_matches t target (some n) (λ c i.
          Passes-as target scope n c (sym (normalized-entries scope n c.0 u h))
            (scope_matches-Passes t target (some scope) c i m)))
