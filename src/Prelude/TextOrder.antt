-- ===== src/Prelude/TextOrder.antt =====
-- Python's order and prefix test on `str`, by code points.
use Prim.Native.Nat.{}
use Prim.Native.Char.{code}
use Prim.Native.String.{String, [], ◌∷◌}
use mathlib.Core.Path.{◌≡◌, refl, ap₂}
use mathlib.Core.Logic.{◌⊎◌, inl, inr}
use mathlib.Core.Bool.{Bool, true, false, ◌&&◌}
use native.Mathlib.Omega.{arith}
use text.Mathlib.TextEquality.{codes_equal}
use cyber_sage.Prelude.Tests.{ltb, nat_eq, if◌then◌else◌}

-- `s <= t`
unfoldable pub text_leb : String → String → Bool
text_leb [] t = true
text_leb (c ∷ s) [] = false
text_leb (c ∷ s) (d ∷ t) =
    let rest = text_leb s t in
    if ltb (code c) (code d) then true else nat_eq (code c) (code d) && rest

-- `s.startswith(p)`
unfoldable pub starts_with : String → String → Bool
starts_with s [] = true
starts_with [] (c ∷ p) = false
starts_with (d ∷ s) (c ∷ p) = nat_eq (code d) (code c) && starts_with s p

pub text_leb_refl : (s : String) → text_leb s s ≡ true
unfolding text_leb
text_leb_refl [] = refl
text_leb_refl (c ∷ s) = ground (arith, text_leb_refl s)

pub text_leb_total : (s t : String) → text_leb s t ≡ false → text_leb t s ≡ true
unfolding text_leb
text_leb_total [] t h = absurd (ground arith)
text_leb_total (c ∷ s) [] h = refl
text_leb_total (c ∷ s) (d ∷ t) h = ground (arith, text_leb_total s t)

pub text_leb_trans :
    (s t u : String) → text_leb s t ≡ true → text_leb t u ≡ true → text_leb s u ≡ true
unfolding text_leb
text_leb_trans [] t u h g = refl
text_leb_trans (c ∷ s) [] u h g = absurd (ground arith)
text_leb_trans (c ∷ s) (d ∷ t) [] h g = absurd (ground arith)
text_leb_trans (c ∷ s) (d ∷ t) (e ∷ u) h g = ground (arith, text_leb_trans s t u)

pub text_leb_antisymm : (s t : String) → text_leb s t ≡ true → text_leb t s ≡ true → s ≡ t
unfolding text_leb
text_leb_antisymm [] [] h g = refl
text_leb_antisymm [] (d ∷ t) h g = absurd (ground arith)
text_leb_antisymm (c ∷ s) [] h g = absurd (ground arith)
text_leb_antisymm (c ∷ s) (d ∷ t) h g =
    ap₂ ◌∷◌ (codes_equal c d (ground arith)) (text_leb_antisymm s t (ground arith) (ground arith))

pub starts_with_refl : (s : String) → starts_with s s ≡ true
unfolding starts_with
starts_with_refl [] = refl
starts_with_refl (c ∷ s) = ground (arith, starts_with_refl s)

pub starts_with_trans :
    (s p q : String) → starts_with s p ≡ true → starts_with p q ≡ true → starts_with s q ≡ true
unfolding starts_with
starts_with_trans s p [] h g = refl
starts_with_trans s [] (c ∷ q) h g = absurd (ground arith)
starts_with_trans [] (d ∷ p) (c ∷ q) h g = absurd (ground arith)
starts_with_trans (e ∷ s) (d ∷ p) (c ∷ q) h g = ground (arith, starts_with_trans s p q)

-- Of two prefixes of one text, one is a prefix of the other.
pub starts_with_either :
    (s p q : String)
    → starts_with s p ≡ true
    → starts_with s q ≡ true
    → (starts_with p q ≡ true) ⊎ (starts_with q p ≡ true)
unfolding starts_with
starts_with_either s [] q h g = inr refl
starts_with_either s (d ∷ p) [] h g = inl refl
starts_with_either [] (d ∷ p) (c ∷ q) h g = absurd (ground arith)
starts_with_either (e ∷ s) (d ∷ p) (c ∷ q) h g =
    elim (starts_with_either s p q (ground arith) (ground arith)) [
      | inl i ↦ inl (ground arith)
      | inr i ↦ inr (ground arith)
    ]
