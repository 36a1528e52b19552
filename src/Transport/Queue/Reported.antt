-- ===== src/Transport/Queue/Reported.antt =====
-- What `mark_failed` does to the row of one event in guardian/transport/local_queue.py.
use cyber_sage.Prelude.{
  ℕ, String, ◌≡◌, refl, ◌+◌, ◌≤◌, Bool, true, false, ◌&&◌, Option, none, some, List, [], ◌∷◌, arith,
  if◌then◌else◌, eq_iff, inl, ◌⊎◌,
}
use cyber_sage.Transport.Queue.Rows.{
  pending, failed, Row, find_event, update_where, active, is_sent, member,
}
use cyber_sage.Transport.Queue.Failing.{fail_loop, fail_found, named, fail_row, status_after}
use cyber_sage.Transport.Queue.Finding.{
  changed, find_event-update_where, Unique, update_where-Unique,
}
use cyber_sage.Transport.Queue.Numbers.{Numbered, Numbered-update_where}
use cyber_sage.Transport.Queue.Views.{status_at, contents, may_move}

-- The event is as it was, or it is pending or failed with the same contents.
abbrev pub IsReported : Option Row → Option Row → Type 0
IsReported none o = o ≡ none
IsReported (some r) none = true ≡ false
IsReported (some r) (some s) =
    (contents (some s) ≡ contents (some r))
    × ((s.status ≡ r.status) ⊎ ((s.status ≡ pending) ⊎ (s.status ≡ failed)))

IsReported-same : (o : Option Row) → IsReported o o
IsReported-same none = refl
IsReported-same (some r) = (refl, inl refl)

IsReported-trans : (o p s : Option Row) → IsReported o p → IsReported p s → IsReported o s
IsReported-trans none p s h i = ground (arith, h, i)
IsReported-trans (some r) none s h i = ground (arith, h)
IsReported-trans (some r) (some p) none h i = i
IsReported-trans (some r) (some p) (some s) h i = ground (arith, h, i)

pub IsReported-may_move :
    (o p : Option Row) → IsReported o p → may_move (status_at o) (status_at p) ≡ true
IsReported-may_move none none h = refl
IsReported-may_move none (some p) h = ground (arith, h)
IsReported-may_move (some r) none h = ground (arith, h)
IsReported-may_move (some r) (some p) h = ground (arith, h)

pub IsReported-contents : (o p : Option Row) → IsReported o p → contents p ≡ contents o
IsReported-contents none p h = ground (arith, h)
IsReported-contents (some r) none h = ground (arith, h)
IsReported-contents (some r) (some p) h = h.0

row-IsReported :
    (j k : String) (p : Bool) (count retries now : ℕ) (e : String) (o : Option Row)
    → IsReported o (changed (named j) (fail_row (status_after p count retries) count e now) o)
row-IsReported j k p count retries now e none = refl
row-IsReported j k p count retries now e (some r) = ground arith

found-IsReported :
    (j e : String) (p : Bool) (now : ℕ) (k : String) (o : Option Row) (rows : List Row)
    → IsReported (find_event k rows) (find_event k (fail_found o j e p now rows).1)
unfolding fail_found
found-IsReported j e p now k none rows = IsReported-same (find_event k rows)
found-IsReported j e p now k (some r) rows =
    let count = r.attempt_count + 1 in
    let change = fail_row (status_after p count r.max_retries) count e now in
    rw (find_event-update_where (named j) change k rows (λ s. refl))
      (row-IsReported j k p count r.max_retries now e (find_event k rows))

pub loop-IsReported :
    (js : List String) (e : String) (p : Bool) (now : ℕ) (k : String) (rows : List Row)
    → IsReported (find_event k rows) (find_event k (fail_loop js e p now rows).1)
unfolding fail_loop
loop-IsReported [] e p now k rows = IsReported-same (find_event k rows)
loop-IsReported (j ∷ js) e p now k rows =
    let rows' = (fail_found (find_event j rows) j e p now rows).1 in
    IsReported-trans (find_event k rows) (find_event k rows')
      (find_event k (fail_loop js e p now rows').1)
      (found-IsReported j e p now k (find_event j rows) rows) (loop-IsReported js e p now k rows')

found-Unique :
    (j e : String) (p : Bool) (now : ℕ) (o : Option Row) (rows : List Row)
    → Unique rows
    → Unique (fail_found o j e p now rows).1
unfolding fail_found
found-Unique j e p now none rows u = u
found-Unique j e p now (some r) rows u =
    let count = r.attempt_count + 1 in
    update_where-Unique (named j) (fail_row (status_after p count r.max_retries) count e now) rows
      (λ s. refl) u

pub loop-Unique :
    (js : List String) (e : String) (p : Bool) (now : ℕ) (rows : List Row)
    → Unique rows
    → Unique (fail_loop js e p now rows).1
unfolding fail_loop
loop-Unique [] e p now rows u = u
loop-Unique (j ∷ js) e p now rows u =
    loop-Unique js e p now (fail_found (find_event j rows) j e p now rows).1
      (found-Unique j e p now (find_event j rows) rows u)

found-Numbered :
    (j e : String) (p : Bool) (now hi : ℕ) (o : Option Row) (rows : List Row)
    → Numbered 1 rows hi
    → Numbered 1 (fail_found o j e p now rows).1 hi
unfolding fail_found
found-Numbered j e p now hi none rows n = n
found-Numbered j e p now hi (some r) rows n =
    let count = r.attempt_count + 1 in
    Numbered-update_where (named j) (fail_row (status_after p count r.max_retries) count e now) 1 hi
      rows (λ s. refl) n

pub loop-Numbered :
    (js : List String) (e : String) (p : Bool) (now hi : ℕ) (rows : List Row)
    → Numbered 1 rows hi
    → Numbered 1 (fail_loop js e p now rows).1 hi
unfolding fail_loop
loop-Numbered [] e p now hi rows n = n
loop-Numbered (j ∷ js) e p now hi rows n =
    loop-Numbered js e p now hi (fail_found (find_event j rows) j e p now rows).1
      (found-Numbered j e p now hi (find_event j rows) rows n)

-- No row of these events was sent.
abbrev pub none_sent : List String → List Row → Bool
none_sent js [] = true
none_sent js (r ∷ rows) =
    if member r.event_id js && is_sent r.status then false else none_sent js rows

update_active :
    (j : String) (js : List String) (p : Bool) (count retries now : ℕ) (e : String)
    (rows : List Row)
    → none_sent (j ∷ js) rows ≡ true
    → (active (update_where (named j) (fail_row (status_after p count retries) count e now) rows)
        ≤ active rows)
      × (none_sent js
            (update_where (named j) (fail_row (status_after p count retries) count e now) rows)
          ≡ true)
unfolding update_where
update_active j js p count retries now e [] h = ground arith
update_active j js p count retries now e (r ∷ rows) h = ground (
  arith,
  h,
  eq_iff r.event_id j,
  eq_iff j r.event_id,
  update_active j js p count retries now e rows,
)

found-active :
    (j : String) (js : List String) (e : String) (p : Bool) (now : ℕ) (o : Option Row)
    (rows : List Row)
    → none_sent (j ∷ js) rows ≡ true
    → none_sent js rows ≡ true
    → (active (fail_found o j e p now rows).1 ≤ active rows)
      × (none_sent js (fail_found o j e p now rows).1 ≡ true)
unfolding fail_found
found-active j js e p now none rows h i = (omega arith, i)
found-active j js e p now (some r) rows h i =
    update_active j js p (r.attempt_count + 1) r.max_retries now e rows h

fewer :
    (j : String) (js : List String) (rows : List Row)
    → none_sent (j ∷ js) rows ≡ true
    → none_sent js rows ≡ true
fewer j js [] h = refl
fewer j js (r ∷ rows) h = ground (arith, h, fewer j js rows)

pub fail_loop-active :
    (js : List String) (e : String) (p : Bool) (now : ℕ) (rows : List Row)
    → none_sent js rows ≡ true
    → active (fail_loop js e p now rows).1 ≤ active rows
unfolding fail_loop
fail_loop-active [] e p now rows h = omega arith
fail_loop-active (j ∷ js) e p now rows h =
    let rows' = (fail_found (find_event j rows) j e p now rows).1 in
    let step = found-active j js e p now (find_event j rows) rows h (fewer j js rows h) in
    omega (arith, step.0, fail_loop-active js e p now rows' step.1)
