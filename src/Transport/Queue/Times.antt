-- ===== src/Transport/Queue/Times.antt =====
-- The times of storing in guardian/transport/local_queue.py, along the table.
use cyber_sage.Prelude.{
  ℕ, ◌≡◌, refl, ◌≤◌, Bool, List, [], ◌∷◌, ◌++◌, arith, select, subst, sym, ◌∙◌, ap,
}
use cyber_sage.Transport.Queue.Rows.{Row, update_where, place, order_by_created}

-- The times of storing do not go back along the table, from `lo` to `hi`.
abbrev pub Timed : ℕ → List Row → ℕ → Type 0
Timed lo [] hi = lo ≤ hi
Timed lo (r ∷ rows) hi = (lo ≤ r.created_at) × Timed r.created_at rows hi

pub Timed-lower : (a b hi : ℕ) (rows : List Row) → a ≤ b → Timed b rows hi → Timed a rows hi
Timed-lower a b hi [] h t = omega arith
Timed-lower a b hi (r ∷ rows) h t = (omega (arith, h, t.0), t.1)

pub Timed-raise : (lo a b : ℕ) (rows : List Row) → a ≤ b → Timed lo rows a → Timed lo rows b
Timed-raise lo a b [] h t = omega arith
Timed-raise lo a b (r ∷ rows) h t = (t.0, Timed-raise r.created_at a b rows h t.1)

pub Timed-append :
    (lo hi : ℕ) (rows : List Row) (r : Row)
    → r.created_at ≡ hi
    → Timed lo rows hi
    → Timed lo (rows ++ r ∷ []) hi
Timed-append lo hi [] r h t = ground (arith, h, t)
Timed-append lo hi (s ∷ rows) r h t = (t.0, Timed-append s.created_at hi rows r h t.1)

pub Timed-select :
    (keep : Row → Bool) (lo hi : ℕ) (rows : List Row)
    → Timed lo rows hi
    → Timed lo (select keep rows) hi
Timed-select keep lo hi [] t = t
Timed-select keep lo hi (r ∷ rows) t = ground (
  arith,
  Timed-select keep r.created_at hi rows t.1,
  Timed-lower lo r.created_at hi (select keep rows) t.0,
  t.0,
)

pub Timed-update_where :
    (test : Row → Bool) (change : Row → Row) (lo hi : ℕ) (rows : List Row)
    → ((r : Row) → (change r).created_at ≡ r.created_at)
    → Timed lo rows hi
    → Timed lo (update_where test change rows) hi
unfolding update_where
Timed-update_where test change lo hi [] same t = t
Timed-update_where test change lo hi (r ∷ rows) same t =
    ground (arith, same r, t.0, Timed-update_where test change r.created_at hi rows same t.1)

Timed-bounds : (lo hi : ℕ) (rows : List Row) → Timed lo rows hi → lo ≤ hi
Timed-bounds lo hi [] t = t
Timed-bounds lo hi (r ∷ rows) t = omega (arith, t.0, Timed-bounds r.created_at hi rows t.1)

-- A row that was made last is placed last.
place_last :
    (lo : ℕ) (r : Row) (done : List Row)
    → Timed lo done r.created_at
    → place r done ≡ done ++ r ∷ []
place_last lo r [] t = refl
place_last lo r (s ∷ done) t =
    ground
      (arith, place_last s.created_at r done t.1, Timed-bounds s.created_at r.created_at done t.1)

Timed-before :
    (lo hi : ℕ) (done : List Row) (r : Row) (rows : List Row)
    → Timed lo (done ++ r ∷ rows) hi
    → Timed lo done r.created_at
Timed-before lo hi [] r rows t = t.0
Timed-before lo hi (s ∷ done) r rows t = (t.0, Timed-before s.created_at hi done r rows t.1)

append_step :
    (done : List Row) (r : Row) (rows : List Row) → (done ++ r ∷ []) ++ rows ≡ done ++ r ∷ rows
append_step [] r rows = refl
append_step (s ∷ done) r rows = ap (λ x. s ∷ x) (append_step done r rows)

append_none : (done : List Row) → done ++ [] ≡ done
append_none [] = refl
append_none (s ∷ done) = ap (λ x. s ∷ x) (append_none done)

pub order_append :
    (lo hi : ℕ) (done rows : List Row)
    → Timed lo (done ++ rows) hi
    → order_by_created done rows ≡ done ++ rows
unfolding order_by_created
order_append lo hi done [] t = sym (append_none done)
order_append lo hi done (r ∷ rows) t =
    ap (λ x. order_by_created x rows) (place_last lo r done (Timed-before lo hi done r rows t))
    ∙ order_append lo hi (done ++ r ∷ []) rows
        (subst (λ x. Timed lo x hi) (sym (append_step done r rows)) t)
    ∙ append_step done r rows
