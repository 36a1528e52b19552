-- ===== src/Prelude/Dict.antt =====
-- A Python `dict` with text keys: an association list in insertion order, where a write to a key
-- that is present replaces the value in place.
use cyber_sage.Prelude.Tests.{if◌then◌else◌, Bool-cases}
use Prim.Native.String.{String}
use mathlib.Core.Path.{◌≡◌, refl}
use mathlib.Core.Logic.{inl, inr}
use mathlib.Core.Option.{Option, none, some}
use mathlib.Core.List.{List, [], ◌∷◌}
use native.Mathlib.Omega.{arith}
use text.Mathlib.Text.{◌==◌}
use text.Mathlib.TextEquality.{eq_iff}

abbrev pub Dict {ℓ} : Type ℓ → Type ℓ
Dict V = List (String × V)

module _ {ℓ} {V : Type ℓ} where
  unfoldable pub lookup : String → Dict V → Option V
  lookup k [] = none
  lookup k ((j, v) ∷ d) = if j == k then some v else lookup k d

  unfoldable pub insert : String → V → Dict V → Dict V
  insert k v [] = (k, v) ∷ []
  insert k v ((j, w) ∷ d) = if j == k then (j, v) ∷ d else (j, w) ∷ insert k v d

  pub lookup-insert :
      (k j : String) (v : V) (d : Dict V)
      → lookup j (insert k v d) ≡ (if k == j then some v else lookup j d)
  unfolding lookup insert
  lookup-insert k j v [] = refl
  lookup-insert k j v ((i, w) ∷ d) =
      ground (arith, eq_iff k j, eq_iff i k, eq_iff i j, lookup-insert k j v d)

  -- No key is listed twice.
  abbrev pub Unique : Dict V → Type ℓ
  Unique [] = Unit
  Unique ((k, v) ∷ d) = (lookup k d ≡ none) × Unique d

  pub insert-Unique : (k : String) (v : V) (d : Dict V) → Unique d → Unique (insert k v d)
  unfolding insert
  insert-Unique k v [] u = (unfold lookup in refl, tt)
  insert-Unique k v ((j, w) ∷ d) u = elim (Bool-cases (j == k)) [
    | inl same ↦ rw same u
    | inr other ↦ rw other (
      ground (arith, lookup-insert k j v d, eq_iff k j, eq_iff j k, u.0),
      insert-Unique k v d u.1,
    )
  ]
