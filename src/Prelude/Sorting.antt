-- ===== src/Prelude/Sorting.antt =====
-- `sorted(xs, key=...)`: a stable sort by a test of precedence.
pub mod Laws
use mathlib.Core.Path.{◌≡◌}
use mathlib.Core.Bool.{Bool, true, false, ◌&&◌, ◌||◌}
use mathlib.Core.List.{List, [], ◌∷◌}
use cyber_sage.Prelude.Tests.{if◌then◌else◌}

-- `any(p(x) for x in xs)` and `all(p(x) for x in xs)`
abbrev pub any {ℓ} : {A : Type ℓ} → (A → Bool) → List A → Bool
any p [] = false
any p (x ∷ xs) = p x || any p xs

abbrev pub all {ℓ} : {A : Type ℓ} → (A → Bool) → List A → Bool
all p [] = true
all p (x ∷ xs) = p x && all p xs

-- A preorder that decides, as a test.
pub record Precedence {ℓ} (A : Type ℓ) : Type ℓ where
  pub before : A → A → Bool
  pub total : (x y : A) → before x y ≡ false → before y x ≡ true
  pub trans : (x y z : A) → before x y ≡ true → before y z ≡ true → before x z ≡ true

module _ {ℓ} {A : Type ℓ} (o : Precedence A) where
  unfoldable pub place : A → List A → List A
  place x [] = x ∷ []
  place x (y ∷ ys) = let rest = place x ys in if o.before x y then x ∷ y ∷ ys else y ∷ rest

  unfoldable pub sort_by : List A → List A
  unfolding place
  sort_by [] = []
  sort_by (x ∷ xs) = place x (sort_by xs)
