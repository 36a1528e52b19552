-- ===== src/Transport/Queue/Numbers.antt =====
-- The primary keys of guardian/transport/local_queue.py: they rise along the table, so that an
-- UPDATE by `id` reaches the row that was read.
use cyber_sage.Prelude.{
  ℕ, zero, suc, String, ◌≡◌, refl, ◌≤◌, Bool, true, false, some, List, [], ◌∷◌, ◌++◌, arith,
  if◌then◌else◌, select, ◌==◌, Bool-cases, inl, inr, ◌⊎◌, nat_eq, ltb, take, subst, sym, ap, ◌∙◌,
}
use cyber_sage.Transport.Queue.Rows.{
  Row, EventQueue, find_event, update_where, place, order_by_created, is_pending,
}
use cyber_sage.Transport.Queue.Sending.{next_batch, has_id, is_pending_row}

-- The keys rise from `lo` and are below `hi`.
abbrev pub Numbered : ℕ → List Row → ℕ → Type 0
Numbered lo [] hi = lo ≤ hi
Numbered lo (r ∷ rows) hi = (lo ≤ r.id) × Numbered (suc r.id) rows hi

Numbered-weaken : (a b hi : ℕ) (rows : List Row) → a ≤ b → Numbered b rows hi → Numbered a rows hi
Numbered-weaken a b hi [] h n = omega arith
Numbered-weaken a b hi (r ∷ rows) h n = (omega arith, n.1)

pub Numbered-append :
    (lo hi : ℕ) (rows : List Row) (r : Row)
    → r.id ≡ hi
    → Numbered lo rows hi
    → Numbered lo (rows ++ r ∷ []) (suc hi)
Numbered-append lo hi [] r h n = ground (arith, h, n)
Numbered-append lo hi (s ∷ rows) r h n = (n.0, Numbered-append (suc s.id) hi rows r h n.1)

pub Numbered-select :
    (keep : Row → Bool) (lo hi : ℕ) (rows : List Row)
    → Numbered lo rows hi
    → Numbered lo (select keep rows) hi
Numbered-select keep lo hi [] n = n
Numbered-select keep lo hi (r ∷ rows) n = ground (
  arith,
  Numbered-select keep (suc r.id) hi rows n.1,
  Numbered-weaken lo (suc r.id) hi (select keep rows),
  n.0,
)

pub Numbered-update_where :
    (test : Row → Bool) (change : Row → Row) (lo hi : ℕ) (rows : List Row)
    → ((r : Row) → (change r).id ≡ r.id)
    → Numbered lo rows hi
    → Numbered lo (update_where test change rows) hi
unfolding update_where
Numbered-update_where test change lo hi [] same n = n
Numbered-update_where test change lo hi (r ∷ rows) same n =
    ground (arith, same r, n.0, Numbered-update_where test change (suc r.id) hi rows same n.1)

abbrev pub Within : Row → List Row → Type 0
Within r [] = true ≡ false
Within r (s ∷ rows) = (s ≡ r) ⊎ Within r rows

pub Within-above :
    (r : Row) (lo hi : ℕ) (rows : List Row) → Numbered lo rows hi → Within r rows → lo ≤ r.id
Within-above r lo hi [] n w = ground (arith, w)
Within-above r lo hi (s ∷ rows) n (inl e) = ground (arith, e, n.0)
Within-above r lo hi (s ∷ rows) n (inr w) =
    omega (arith, n.0, Within-above r (suc s.id) hi rows n.1 w)

-- A key belongs to one row.
same_row :
    (r s : Row) (lo hi : ℕ) (rows : List Row)
    → Numbered lo rows hi
    → Within r rows
    → Within s rows
    → s.id ≡ r.id
    → s ≡ r
same_row r s lo hi [] n v w e = ground (arith, v)
same_row r s lo hi (t ∷ rows) n (inl a) (inl b) e = sym b ∙ a
same_row r s lo hi (t ∷ rows) n (inl a) (inr w) e =
    ground (arith, ap (λ x. x.id) a, Within-above s (suc t.id) hi rows n.1 w, e)
same_row r s lo hi (t ∷ rows) n (inr v) (inl b) e =
    ground (arith, ap (λ x. x.id) b, Within-above r (suc t.id) hi rows n.1 v, e)
same_row r s lo hi (t ∷ rows) n (inr v) (inr w) e = same_row r s (suc t.id) hi rows n.1 v w e

Within-select :
    (p : Row → Bool) (r : Row) (rows : List Row)
    → Within r (select p rows)
    → Within r rows × (p r ≡ true)
Within-select p r [] w = ground (arith, w)
Within-select p r (s ∷ rows) w = elim (Bool-cases (p s)) [
  | inl holds ↦
      elim (subst (λ b. Within r (if b then s ∷ select p rows else select p rows)) holds w) [
        | inl e ↦ (inl e, subst (λ x. p x ≡ true) e holds)
        | inr v ↦ let there = Within-select p r rows v in (inr there.0, there.1)
      ]
  | inr fails ↦
      let v = subst (λ b. Within r (if b then s ∷ select p rows else select p rows)) fails w in
      let there = Within-select p r rows v in (inr there.0, there.1)
]

Within-take : (n : ℕ) (r : Row) (rows : List Row) → Within r (take n rows) → Within r rows
Within-take zero r rows w = ground (arith, w)
Within-take (suc n) r [] w = w
Within-take (suc n) r (s ∷ rows) (inl e) = inl e
Within-take (suc n) r (s ∷ rows) (inr w) = inr (Within-take n r rows w)

Within-place : (r s : Row) (rows : List Row) → Within r (place s rows) → (s ≡ r) ⊎ Within r rows
Within-place r s [] w = w
Within-place r s (t ∷ rows) w = elim (Bool-cases (ltb s.created_at t.created_at)) [
  | inl holds ↦ subst (λ b. Within r (if b then s ∷ t ∷ rows else t ∷ place s rows)) holds w
  | inr fails ↦
      elim (subst (λ b. Within r (if b then s ∷ t ∷ rows else t ∷ place s rows)) fails w) [
        | inl e ↦ inr (inl e)
        | inr v ↦ elim (Within-place r s rows v) [ inl e ↦ inl e | inr u ↦ inr (inr u) ]
      ]
]

Within-order :
    (r : Row) (done rows : List Row)
    → Within r (order_by_created done rows)
    → Within r done ⊎ Within r rows
unfolding order_by_created
Within-order r done [] w = inl w
Within-order r done (s ∷ rows) w = elim (Within-order r (place s done) rows w) [
  | inr v ↦ inr (inr v)
  | inl v ↦ elim (Within-place r s done v) [ inl e ↦ inr (inl e) | inr u ↦ inl u ]
]

id-Within :
    (r : Row) (rows : List Row) → has_id rows r ≡ true → (s : Row) × Within s rows × (s.id ≡ r.id)
id-Within r [] h = ground (arith, h)
id-Within r (s ∷ rows) h = elim (Bool-cases (nat_eq s.id r.id)) [
  | inl holds ↦ (s, inl refl, ground arith)
  | inr fails ↦
      let (t, w, e) =
        id-Within r rows (subst (λ b. (if b then true else has_id rows r) ≡ true) fails h) in
      (t, inr w, e)
]

Within-find_event :
    (k : String) (r : Row) (rows : List Row) → find_event k rows ≡ some r → Within r rows
unfolding find_event
Within-find_event k r [] h = ground (arith, h)
Within-find_event k r (s ∷ rows) h = elim (Bool-cases (s.event_id == k)) [
  | inl holds ↦ inl (ground (arith, h))
  | inr fails ↦ inr (Within-find_event k r rows (ground (arith, h)))
]

pub Within-taken :
    (lo n : ℕ) (q : EventQueue) (r : Row)
    → Numbered lo q.rows q.next_id
    → Within r q.rows
    → has_id (next_batch n q) r ≡ true
    → is_pending r.status ≡ true
unfolding next_batch
Within-taken lo n q r num v h =
    let (s, w, e) = id-Within r (next_batch n q) h in
    let chosen = select is_pending_row q.rows in
    elim (Within-order s [] chosen (Within-take n s (order_by_created [] chosen) w)) [
      | inl absurd ↦ ground (arith, absurd)
      | inr u ↦
          let there = Within-select is_pending_row s q.rows u in
          let same = same_row r s lo q.next_id q.rows num v there.0 e in
          subst (λ x. is_pending x.status ≡ true) same there.1
    ]

-- What is taken to be sent was pending.
pub taken-pending :
    (lo n : ℕ) (q : EventQueue) (k : String) (r : Row)
    → Numbered lo q.rows q.next_id
    → find_event k q.rows ≡ some r
    → has_id (next_batch n q) r ≡ true
    → is_pending r.status ≡ true
taken-pending lo n q k r num here h =
    Within-taken lo n q r num (Within-find_event k r q.rows here) h
