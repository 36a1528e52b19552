-- ===== src/Safety/RateLimiter/Windows.antt =====
-- The windows of guardian/safety/rate_limiter.py as lists of increasing times.
use cyber_sage.Prelude.{
  ℕ, ◌≤◌, ◌≡◌, refl, Bool, false, not, List, [], ◌∷◌, ◌++◌, arith, All, All-append, length, select,
  Bool-cases, inl, inr,
}
use cyber_sage.Safety.RateLimiter.{stale, prune}

-- Increasing times, none after `now`.
abbrev pub Ordered : ℕ → List ℕ → Type 0
Ordered now [] = Unit
Ordered now (t ∷ w) = (t ≤ now) × All (λ u. t ≤ u) w × Ordered now w

abbrev pub recent : ℕ → ℕ → List ℕ → List ℕ
recent width now w = select (λ t. not (stale width now t)) w

select-All :
    (width now t : ℕ) (w : List ℕ)
    → stale width now t ≡ false
    → All (λ u. t ≤ u) w
    → recent width now w ≡ w
select-All width now t [] fresh later = refl
select-All width now t (u ∷ w) fresh later =
    ground (arith, select-All width now t w fresh later.1, later.0)

-- On increasing times the loop keeps just the times of the window.
pub prune-eq-recent :
    (width now last : ℕ) (w : List ℕ) → Ordered last w → prune width now w ≡ recent width now w
unfolding prune
prune-eq-recent width now last [] o = refl
prune-eq-recent width now last (t ∷ w) o =
    ground (arith, prune-eq-recent width now last w o.2, select-All width now t w)

All-weaken : (s t : ℕ) (w : List ℕ) → s ≤ t → All (λ u. t ≤ u) w → All (λ u. s ≤ u) w
All-weaken s t [] h a = tt
All-weaken s t (u ∷ w) h a = (omega arith, All-weaken s t w h a.1)

All-select :
    (p : ℕ → Bool) (t : ℕ) (w : List ℕ) → All (λ u. t ≤ u) w → All (λ u. t ≤ u) (select p w)
All-select p t [] a = tt
All-select p t (u ∷ w) a = elim (Bool-cases (p u)) [
  | inl kept ↦ rw kept (a.0, All-select p t w a.1)
  | inr dropped ↦ rw dropped (All-select p t w a.1)
]

pub Ordered-append :
    (now last : ℕ) (w : List ℕ) → last ≤ now → Ordered last w → Ordered now (w ++ now ∷ [])
Ordered-append now last [] h o = omega arith
Ordered-append now last (t ∷ w) h o = (
  omega arith,
  All-append (λ u. t ≤ u) w (now ∷ []) o.1 (omega arith),
  Ordered-append now last w h o.2,
)

pub Ordered-later : (last now : ℕ) (w : List ℕ) → last ≤ now → Ordered last w → Ordered now w
Ordered-later last now [] h o = tt
Ordered-later last now (t ∷ w) h o = (omega arith, o.1, Ordered-later last now w h o.2)

pub Ordered-select :
    (p : ℕ → Bool) (last : ℕ) (w : List ℕ) → Ordered last w → Ordered last (select p w)
Ordered-select p last [] o = tt
Ordered-select p last (t ∷ w) o = elim (Bool-cases (p t)) [
  | inl kept ↦ rw kept (o.0, All-select p t w o.1, Ordered-select p last w o.2)
  | inr dropped ↦ rw dropped (Ordered-select p last w o.2)
]

pub recent-append :
    (width now t : ℕ) (w : List ℕ)
    → recent width now (w ++ t ∷ []) ≡ recent width now w ++ recent width now (t ∷ [])
recent-append width now t [] = refl
recent-append width now t (u ∷ w) = ground (arith, recent-append width now t w)

-- Nothing that has left the window comes back.
pub recent-recent :
    (width now later : ℕ) (w : List ℕ)
    → now ≤ later
    → recent width later (recent width now w) ≡ recent width later w
recent-recent width now later [] h = refl
recent-recent width now later (t ∷ w) h = ground (arith, recent-recent width now later w h)

pub length-recent-le :
    (width now later : ℕ) (w : List ℕ)
    → now ≤ later
    → length (recent width later w) ≤ length (recent width now w)
length-recent-le width now later [] h = omega arith
length-recent-le width now later (t ∷ w) h = ground (arith, length-recent-le width now later w h)
