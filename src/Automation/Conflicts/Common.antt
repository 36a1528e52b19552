-- ===== src/Automation/Conflicts/Common.antt =====
-- A target that a scope matches, dimension by dimension, and what is asked of the library of network
-- addresses.
use cyber_sage.Prelude.{
  String, ◌≡◌, refl, sym, ap₂, subst, true, Option, none, some, List, [], ◌∷◌, arith, All,
  Bool-cases, inl, inr, eq_iff, ◌==◌,
}
use mathlib.Core.List.{Memᴰ}
use cyber_sage.Prelude.Dict.{Dict, lookup}
use cyber_sage.Prelude.Sorting.Laws.{All-member, All-intro}
use cyber_sage.Automation.V5.Rules.{Texts, Scope, Value}
use cyber_sage.Automation.V5.Scope.{
  Matcher, checks, entries_of, passes_check, pass_checks, scope_matches_target,
}
use cyber_sage.Automation.Conflicts.Overlap.{scope_matchers, or_empty}

-- What the documentation of `ipaddress` says of equality, containment and subnets.
pub record IpLaws (t : Texts) : Type 0 where
  pub same_address_refl : (a : t.Address) → t.same_address a a ≡ true
  pub same_address-eq : (a b : t.Address) → t.same_address a b ≡ true → a ≡ b
  pub overlaps_common :
      (n m : t.Network) (a : t.Address)
      → t.contains n a ≡ true
      → t.contains m a ≡ true
      → t.overlaps n m ≡ true
  pub subnet_contains :
      (n m : t.Network) (a : t.Address)
      → t.subnet_of n m ≡ some true
      → t.contains n a ≡ true
      → t.contains m a ≡ true

pub lookup-Memᴰ {ℓ} :
    {V : Type ℓ} (key : String) (d : Dict V) (v : V) → lookup key d ≡ some v → Memᴰ (key, v) d
unfolding lookup
lookup-Memᴰ key [] v h = absurd (ground arith)
lookup-Memᴰ key ((k, w) ∷ d) v h = elim (Bool-cases (k == key)) [
  | inl e ↦ Memᴰ.head (ap₂ (λ j x. (j, x)) (sym ((eq_iff k key).0 e)) (ground (arith, h, e)))
  | inr e ↦ Memᴰ.tail (lookup-Memᴰ key d v (ground (arith, h, e)))
]

-- The two tables, of the matching and of the overlap, agree.
abbrev pub Check : Type 0
Check = String × String × Matcher

check_matcher : All (λ (c : Check). lookup c.0 scope_matchers ≡ some c.2) checks
unfolding lookup
check_matcher = (refl, (refl, (refl, (refl, (refl, (refl, (refl, (refl, tt))))))))

pub matcher_of_check : (c : Check) → Memᴰ c checks → lookup c.0 scope_matchers ≡ some c.2
matcher_of_check c m =
    All-member (λ (c : Check). lookup c.0 scope_matchers ≡ some c.2) c m check_matcher

abbrev Checked : String × Matcher → Type 0
Checked e = (name : String) × Memᴰ (e.0, name, e.1) checks

matcher-Checked : All Checked scope_matchers
matcher-Checked = (
  ("host_id", Memᴰ.head refl),
  (
    ("agent_key", Memᴰ.tail (Memᴰ.head refl)),
    (
      ("process_name", Memᴰ.tail (Memᴰ.tail (Memᴰ.tail (Memᴰ.head refl)))),
      (
        (
          "user_name",
          Memᴰ.tail (
              Memᴰ.tail
                (Memᴰ.tail (Memᴰ.tail (Memᴰ.tail (Memᴰ.tail (Memᴰ.tail (Memᴰ.head refl))))))),
        ),
        (
          ("persistence_type", Memᴰ.tail (Memᴰ.tail (Memᴰ.tail (Memᴰ.tail (Memᴰ.head refl))))),
          (
            (
              "persistence_path",
              Memᴰ.tail (Memᴰ.tail (Memᴰ.tail (Memᴰ.tail (Memᴰ.tail (Memᴰ.head refl))))),
            ),
            (
              (
                "file_path",
                Memᴰ.tail
                    (Memᴰ.tail (Memᴰ.tail (Memᴰ.tail (Memᴰ.tail (Memᴰ.tail (Memᴰ.head refl)))))),
              ),
              (("destination_ip", Memᴰ.tail (Memᴰ.tail (Memᴰ.head refl))), tt),
            ),
          ),
        ),
      ),
    ),
  ),
)

pub check_of_matcher :
    (key : String) (m : Matcher)
    → lookup key scope_matchers ≡ some m
    → (name : String) × Memᴰ (key, name, m) checks
check_of_matcher key m h =
    All-member Checked (key, m) (lookup-Memᴰ key scope_matchers m h) matcher-Checked

module _ (t : Texts) {J : Type 0} (target : Dict (Value J)) where
  -- The target passes one check of a scope.
  abbrev pub Passes : Scope → Check → Type 0
  Passes scope c = passes_check t c.2 (entries_of scope c.0) (lookup c.1 target) ≡ true

  pass_checks-elim :
      (scope : Scope) (c : Check) {l : List Check}
      → Memᴰ c l
      → pass_checks t l scope target ≡ true
      → Passes scope c
  unfolding pass_checks
  pass_checks-elim scope c (Memᴰ.head {x} e) h = subst (Passes scope) (sym e) (ground (arith, h))
  pass_checks-elim scope c (Memᴰ.tail m) h = pass_checks-elim scope c m (ground (arith, h))

  pass_checks-intro :
      (scope : Scope) (l : List Check) → All (Passes scope) l → pass_checks t l scope target ≡ true
  unfolding pass_checks
  pass_checks-intro scope [] a = refl
  pass_checks-intro scope (c ∷ l) (h, a) = ground (arith, h, pass_checks-intro scope l a)

  pub scope_matches-Passes :
      (scope : Option Scope) (c : Check)
      → Memᴰ c checks
      → scope_matches_target t scope target ≡ true
      → Passes (or_empty scope) c
  unfolding scope_matches_target
  scope_matches-Passes none c m h = unfold entries_of lookup passes_check in refl
  scope_matches-Passes (some []) c m h = unfold entries_of lookup passes_check in refl
  scope_matches-Passes (some (d ∷ scope)) c m h = pass_checks-elim (d ∷ scope) c m h

  pub Passes-scope_matches :
      (scope : Option Scope)
      → ((c : Check) → Memᴰ c checks → Passes (or_empty scope) c)
      → scope_matches_target t scope target ≡ true
  unfolding scope_matches_target
  Passes-scope_matches none f = refl
  Passes-scope_matches (some []) f = refl
  Passes-scope_matches (some (d ∷ scope)) f =
      pass_checks-intro (d ∷ scope) checks (All-intro checks f)
