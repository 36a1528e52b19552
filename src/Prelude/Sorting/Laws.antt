-- ===== src/Prelude/Sorting/Laws.antt =====
-- What a stable sort keeps and what it brings about.
use Prim.Native.Nat.{suc}
use mathlib.Core.Path.{◌≡◌, ◌∙◌, refl, sym, ap, ap₂, subst}
use mathlib.Core.Logic.{◌⊎◌, inl, inr}
use mathlib.Core.Bool.{Bool, true, not}
use mathlib.Core.List.{List, [], ◌∷◌, ◌++◌, Memᴰ, Permᴰ}
use mathlib.Core.List.Permᴰ
use native.Mathlib.Omega.{arith}
use cyber_sage.Prelude.Tests.{Bool-cases}
use cyber_sage.Prelude.Lists.{All, length}
use cyber_sage.Prelude.Sorting.{Precedence, any, all, place, sort_by}

pub List-cases {ℓ} : {A : Type ℓ} (l : List A) → (l ≡ []) ⊎ ((x : A) × (xs : List A) × (l ≡ x ∷ xs))
List-cases [] = inl refl
List-cases (x ∷ xs) = inr (x, xs, refl)

module _ {ℓ} {A : Type ℓ} where
  pub any-perm : (p : A → Bool) {l r : List A} → Permᴰ l r → any p l ≡ any p r
  any-perm p Permᴰ.nil = refl
  any-perm p (Permᴰ.cons {a} {b} {l₁ = l} {l₂ = r} e q) = ground (arith, ap p e, any-perm p q)
  any-perm p (Permᴰ.swap e f) = ground (arith, ap p e, ap p f)
  any-perm p (Permᴰ.trans q r) = any-perm p q ∙ any-perm p r

  pub any-elim : (p : A → Bool) (l : List A) → any p l ≡ true → (x : A) × Memᴰ x l × (p x ≡ true)
  any-elim p [] h = absurd (ground arith)
  any-elim p (x ∷ xs) h = elim (Bool-cases (p x)) [
    | inl e ↦ (x, Memᴰ.head refl, e)
    | inr e ↦ let (y, m, f) = any-elim p xs (ground (arith, h, e)) in (y, Memᴰ.tail m, f)
  ]

  pub any-intro : (p : A → Bool) (x : A) {l : List A} → Memᴰ x l → p x ≡ true → any p l ≡ true
  any-intro p x (Memᴰ.head e) h = ground (arith, ap p e, h)
  any-intro p x (Memᴰ.tail m) h = ground (arith, any-intro p x m h)

  pub all-elim : (p : A → Bool) (x : A) {l : List A} → Memᴰ x l → all p l ≡ true → p x ≡ true
  all-elim p x (Memᴰ.head e) h = ground (arith, ap p e, h)
  all-elim p x (Memᴰ.tail m) h = all-elim p x m (ground (arith, h))

  pub length-perm : {l r : List A} → Permᴰ l r → length l ≡ length r
  length-perm Permᴰ.nil = refl
  length-perm (Permᴰ.cons e q) = ap suc (length-perm q)
  length-perm (Permᴰ.swap e f) = refl
  length-perm (Permᴰ.trans q r) = length-perm q ∙ length-perm r

  pub All-perm {κ} : (P : A → Type κ) {l r : List A} → Permᴰ l r → All P l → All P r
  All-perm P Permᴰ.nil a = tt
  All-perm P (Permᴰ.cons e q) (h, a) = (subst P e h, All-perm P q a)
  All-perm P (Permᴰ.swap e f) (h, (g, a)) = (subst P f g, (subst P e h, a))
  All-perm P (Permᴰ.trans q r) a = All-perm P r (All-perm P q a)

  pub Memᴰ-perm : {a : A} {l r : List A} → Permᴰ l r → Memᴰ a l → Memᴰ a r
  Memᴰ-perm Permᴰ.nil m = m
  Memᴰ-perm (Permᴰ.cons e q) (Memᴰ.head h) = Memᴰ.head (h ∙ e)
  Memᴰ-perm (Permᴰ.cons e q) (Memᴰ.tail m) = Memᴰ.tail (Memᴰ-perm q m)
  Memᴰ-perm (Permᴰ.swap e f) (Memᴰ.head h) = Memᴰ.tail (Memᴰ.head (h ∙ e))
  Memᴰ-perm (Permᴰ.swap e f) (Memᴰ.tail (Memᴰ.head h)) = Memᴰ.head (h ∙ f)
  Memᴰ-perm (Permᴰ.swap e f) (Memᴰ.tail (Memᴰ.tail m)) = Memᴰ.tail (Memᴰ.tail m)
  Memᴰ-perm (Permᴰ.trans q r) m = Memᴰ-perm r (Memᴰ-perm q m)

  pub All-member {κ} : (P : A → Type κ) (a : A) {l : List A} → Memᴰ a l → All P l → P a
  All-member P a (Memᴰ.head e) (h, hs) = subst P (sym e) h
  All-member P a (Memᴰ.tail m) (h, hs) = All-member P a m hs

  pub All-intro {κ} : {P : A → Type κ} (l : List A) → ((a : A) → Memᴰ a l → P a) → All P l
  All-intro [] f = tt
  All-intro (x ∷ l) f = (f x (Memᴰ.head refl), All-intro l (λ a m. f a (Memᴰ.tail m)))

  -- Two parts of a list change places.
  pub append-Permᴰ : (x y l : List A) → Permᴰ (x ++ (y ++ l)) (y ++ (x ++ l))
  append-Permᴰ [] y l = Permᴰ.refl (y ++ l)
  append-Permᴰ (a ∷ x) y l =
      Permᴰ.trans (Permᴰ.cons refl (append-Permᴰ x y l)) (Permᴰ.symm (Permᴰ.middle a y (x ++ l)))

module _ {ℓ} {A : Type ℓ} (o : Precedence A) where
  place-Permᴰ : (x : A) (l : List A) → Permᴰ (place o x l) (x ∷ l)
  unfolding place
  place-Permᴰ x [] = Permᴰ.refl (x ∷ [])
  place-Permᴰ x (y ∷ ys) = elim (Bool-cases (o.before x y)) [
    | inl e ↦ rw e (Permᴰ.refl (x ∷ y ∷ ys))
    | inr e ↦ rw e (Permᴰ.trans (Permᴰ.cons refl (place-Permᴰ x ys)) (Permᴰ.swap refl refl))
  ]

  pub sort_by-Permᴰ : (l : List A) → Permᴰ (sort_by o l) l
  unfolding sort_by
  sort_by-Permᴰ [] = Permᴰ.nil
  sort_by-Permᴰ (x ∷ xs) =
      Permᴰ.trans (place-Permᴰ x (sort_by o xs)) (Permᴰ.cons refl (sort_by-Permᴰ xs))

  -- Every element precedes those after it.
  abbrev pub IsSorted : List A → Type ℓ
  IsSorted [] = Unit
  IsSorted (x ∷ xs) = All (λ y. o.before x y ≡ true) xs × IsSorted xs

  All-before :
      (x y : A) (l : List A)
      → o.before x y ≡ true
      → All (λ z. o.before y z ≡ true) l
      → All (λ z. o.before x z ≡ true) l
  All-before x y [] h a = tt
  All-before x y (z ∷ l) h (b, a) = (o.trans x y z h b, All-before x y l h a)

  place-IsSorted : (x : A) (l : List A) → IsSorted l → IsSorted (place o x l)
  unfolding place
  place-IsSorted x [] s = (tt, tt)
  place-IsSorted x (y ∷ ys) (a, s) = elim (Bool-cases (o.before x y)) [
    | inl e ↦ rw e ((e, All-before x y ys e a), (a, s))
    | inr e ↦ rw e (
      All-perm (λ z. o.before y z ≡ true) (Permᴰ.symm (place-Permᴰ x ys)) (o.total x y e, a),
      place-IsSorted x ys s,
    )
  ]

  pub sort_by-IsSorted : (l : List A) → IsSorted (sort_by o l)
  unfolding sort_by
  sort_by-IsSorted [] = tt
  sort_by-IsSorted (x ∷ xs) = place-IsSorted x (sort_by o xs) (sort_by-IsSorted xs)

  before_self : (x : A) → o.before x x ≡ true
  before_self x = elim (Bool-cases (o.before x x)) [ inl e ↦ e | inr e ↦ o.total x x e ]

  -- The first element of the sorted list precedes every element.
  pub sort_by-first :
      (w : A) (ws l : List A) → sort_by o l ≡ w ∷ ws → All (λ x. o.before w x ≡ true) l
  sort_by-first w ws l e =
      let s = subst IsSorted e (sort_by-IsSorted l) in
      All-perm (λ x. o.before w x ≡ true) (subst (λ k. Permᴰ k l) e (sort_by-Permᴰ l))
        (before_self w, s.0)

  -- No two elements precede each other.
  abbrev pub Strict : List A → Type ℓ
  Strict [] = Unit
  Strict (x ∷ xs) = All (λ y. o.before x y ≡ not (o.before y x)) xs × Strict xs

  place_comm :
      (x y : A) (l : List A)
      → o.before x y ≡ not (o.before y x)
      → place o x (place o y l) ≡ place o y (place o x l)
  unfolding place
  place_comm x y [] h = ground arith
  place_comm x y (z ∷ zs) h = ground (
    arith,
    place_comm x y zs h,
    o.trans x y z,
    o.trans y x z,
    o.total x z,
    o.total y z,
    o.trans x z y,
    o.trans y z x,
    o.total x y,
    o.total y x,
  )

  Strict-perm : {l r : List A} → Permᴰ l r → Strict l → Strict r
  Strict-perm Permᴰ.nil s = tt
  Strict-perm (Permᴰ.cons {a} {b} {l₁ = l} {l₂ = r} e q) (h, s) = (
    All-perm (λ y. o.before b y ≡ not (o.before y b)) q
        (subst (λ c. All (λ y. o.before c y ≡ not (o.before y c)) l) e h),
    Strict-perm q s,
  )
  Strict-perm (Permᴰ.swap {a} {b} {a'} {b'} {l} e f) ((h, hs), (gs, s)) = (
    (
      ground (arith, ap₂ o.before e f, ap₂ o.before f e),
      subst (λ c. All (λ y. o.before c y ≡ not (o.before y c)) l) f gs,
    ),
    (subst (λ c. All (λ y. o.before c y ≡ not (o.before y c)) l) e hs, s),
  )
  Strict-perm (Permᴰ.trans q r) s = Strict-perm r (Strict-perm q s)

  -- Sorting forgets the order it is given where no two elements precede each other.
  pub sort_by-unordered : {l r : List A} → Permᴰ l r → Strict l → sort_by o l ≡ sort_by o r
  unfolding sort_by
  sort_by-unordered Permᴰ.nil s = refl
  sort_by-unordered (Permᴰ.cons e q) (h, s) = ap₂ (place o) e (sort_by-unordered q s)
  sort_by-unordered (Permᴰ.swap {a} {b} {a'} {b'} {l} e f) ((h, hs), (gs, s)) =
      place_comm a b (sort_by o l) h ∙ ap₂ (λ x y. place o x (place o y (sort_by o l))) f e
  sort_by-unordered (Permᴰ.trans q r) s =
      sort_by-unordered q s ∙ sort_by-unordered r (Strict-perm q s)

  -- The first element of the sorted list is in the list.
  pub first-Memᴰ : (w : A) (ws l : List A) → sort_by o l ≡ w ∷ ws → Memᴰ w l
  first-Memᴰ w ws l e = Memᴰ-perm (subst (λ k. Permᴰ k l) e (sort_by-Permᴰ l)) (Memᴰ.head refl)

  pub sort_by-empty : (l : List A) → sort_by o l ≡ [] → l ≡ []
  sort_by-empty [] e = refl
  sort_by-empty (x ∷ xs) e =
      absurd (ground (arith, length-perm (sort_by-Permᴰ (x ∷ xs)), ap length e))
