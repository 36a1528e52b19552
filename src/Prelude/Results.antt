-- ===== src/Prelude/Results.antt =====
-- A function that may raise: a value or the exception.
use mathlib.Core.Path.{◌≡◌, ◌∙◌, refl, sym}
use mathlib.Core.Logic.{◌⊎◌, inl, inr}
use mathlib.Core.Bool.{Bool, true, false}
use mathlib.Core.List.{List, [], ◌∷◌}
use native.Mathlib.Omega.{arith}
use cyber_sage.Prelude.Lists.{All}

pub data Result {ℓ κ} (E : Type ℓ) (A : Type κ) : Type (ℓ ⊔ κ) where
  ok : A → Result E A
  err : E → Result E A

pub Result-cases {ℓ κ} :
    {E : Type ℓ} {A : Type κ} (r : Result E A) → ((a : A) × (r ≡ ok a)) ⊎ ((e : E) × (r ≡ err e))
Result-cases (ok a) = inl (a, refl)
Result-cases (err e) = inr (e, refl)

infixl 5 ◌>>=◌ ◌>>◌
abbrev pub ◌>>=◌ {ℓ κ μ} :
    {E : Type ℓ} {A : Type κ} {B : Type μ} → Result E A → (A → Result E B) → Result E B
ok a >>= k = k a
err e >>= k = err e

abbrev pub ◌>>◌ {ℓ κ μ} :
    {E : Type ℓ} {A : Type κ} {B : Type μ} → Result E A → Result E B → Result E B
ok a >> r = r
err e >> r = err e

-- `if not test: raise e`
abbrev pub guard {ℓ} : {E : Type ℓ} → Bool → E → Result E (Unit {0})
guard true e = ok tt
guard false e = err e

-- `for x in xs: f(x)`
abbrev pub each {ℓ κ} :
    {E : Type ℓ} {A : Type κ} → (A → Result E (Unit {0})) → List A → Result E (Unit {0})
each f [] = ok tt
each f (x ∷ xs) = f x >> each f xs

pub each-ok {ℓ κ} :
    {E : Type ℓ} {A : Type κ} (f : A → Result E (Unit {0})) (xs : List A)
    → each f xs ≡ ok tt
    → All (λ x. f x ≡ ok tt) xs
each-ok f [] h = tt
each-ok f (x ∷ xs) h = elim (Result-cases (f x)) [
  | inl (u, e) ↦ (e, each-ok f xs (sym (rw e refl) ∙ h))
  | inr (r, e) ↦ absurd (ground (arith, e))
]

pub bind-ok {ℓ κ μ} :
    {E : Type ℓ} {A : Type κ} {B : Type μ} (r : Result E A) (k : A → Result E B) (b : B)
    → (r >>= k) ≡ ok b
    → (a : A) × (r ≡ ok a) × (k a ≡ ok b)
bind-ok (ok a) k b h = (a, refl, h)
bind-ok (err e) k b h = absurd (ground arith)

pub guard-ok {ℓ κ} :
    {E : Type ℓ} {B : Type κ} (test : Bool) (e : E) (r : Result E B) (b : B)
    → (guard test e >> r) ≡ ok b
    → (test ≡ true) × (r ≡ ok b)
guard-ok true e r b h = (refl, h)
guard-ok false e r b h = absurd (ground arith)

pub then-ok {ℓ κ μ} :
    {E : Type ℓ} {A : Type κ} {B : Type μ} (r : Result E A) (s : Result E B) (b : B)
    → (r >> s) ≡ ok b
    → (a : A) × (r ≡ ok a) × (s ≡ ok b)
then-ok (ok a) s b h = (a, refl, h)
then-ok (err e) s b h = absurd (ground arith)

pub ok-injective {ℓ κ} :
    {E : Type ℓ} {A : Type κ} {a b : A} → ◌≡◌ {A = Result E A} (ok a) (ok b) → a ≡ b
ok-injective h = ground (arith, h)
