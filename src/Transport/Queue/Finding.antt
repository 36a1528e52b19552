-- ===== src/Transport/Queue/Finding.antt =====
-- What the statements of guardian/transport/local_queue.py do to the row of one event.
use cyber_sage.Prelude.{
  String, ◌≡◌, refl, ◌+◌, ◌≤◌, Bool, true, Option, none, some, List, [], ◌∷◌, ◌++◌, arith,
  if◌then◌else◌, select, ◌==◌, eq_iff,
}
use cyber_sage.Transport.Queue.Rows.{Row, find_event, update_where, is_active, active}

abbrev pub changed : (Row → Bool) → (Row → Row) → Option Row → Option Row
changed test change none = none
changed test change (some r) = some (if test r then change r else r)

-- An UPDATE that leaves the identifiers alone.
pub find_event-update_where :
    (test : Row → Bool) (change : Row → Row) (k : String) (rows : List Row)
    → ((r : Row) → (change r).event_id ≡ r.event_id)
    → find_event k (update_where test change rows) ≡ changed test change (find_event k rows)
unfolding find_event update_where
find_event-update_where test change k [] same = refl
find_event-update_where test change k (r ∷ rows) same =
    ground (arith, same r, find_event-update_where test change k rows same)

abbrev pub or_added : String → Option Row → Row → Option Row
or_added k (some s) r = some s
or_added k none r = if r.event_id == k then some r else none

pub find_event-append :
    (k : String) (rows : List Row) (r : Row)
    → find_event k (rows ++ r ∷ []) ≡ or_added k (find_event k rows) r
unfolding find_event
find_event-append k [] r = refl
find_event-append k (s ∷ rows) r = ground (arith, find_event-append k rows r)

-- No event has two rows.
abbrev pub Unique : List Row → Type 0
Unique [] = Unit
Unique (r ∷ rows) = (find_event r.event_id rows ≡ none) × Unique rows

abbrev pub kept : (Row → Bool) → Option Row → Option Row
kept keep none = none
kept keep (some r) = if keep r then some r else none

pub find_event-select :
    (keep : Row → Bool) (k : String) (rows : List Row)
    → Unique rows
    → find_event k (select keep rows) ≡ kept keep (find_event k rows)
unfolding find_event
find_event-select keep k [] u = refl
find_event-select keep k (r ∷ rows) u =
    ground (arith, eq_iff r.event_id k, find_event-select keep k rows u.1, u.0)

pub select-Unique : (keep : Row → Bool) (rows : List Row) → Unique rows → Unique (select keep rows)
select-Unique keep [] u = tt
select-Unique keep (r ∷ rows) u =
    ground (arith, find_event-select keep r.event_id rows u.1, u.0, select-Unique keep rows u.1)

pub update_where-Unique :
    (test : Row → Bool) (change : Row → Row) (rows : List Row)
    → ((r : Row) → (change r).event_id ≡ r.event_id)
    → Unique rows
    → Unique (update_where test change rows)
unfolding update_where
update_where-Unique test change [] same u = tt
update_where-Unique test change (r ∷ rows) same u = ground (
  arith,
  same r,
  find_event-update_where test change r.event_id rows same,
  update_where-Unique test change rows same u.1,
  u.0,
)

pub append-Unique :
    (rows : List Row) (r : Row)
    → Unique rows
    → find_event r.event_id rows ≡ none
    → Unique (rows ++ r ∷ [])
unfolding find_event
append-Unique [] r u new = (refl, tt)
append-Unique (s ∷ rows) r u new = ground (
  arith,
  eq_iff s.event_id r.event_id,
  eq_iff r.event_id s.event_id,
  find_event-append s.event_id rows r,
  append-Unique rows r u.1,
  u.0,
)

-- The row found under a key has that key.
pub event_id-find_event :
    (k : String) (rows : List Row) (r : Row) → find_event k rows ≡ some r → r.event_id ≡ k
unfolding find_event
event_id-find_event k [] r h = ground arith
event_id-find_event k (s ∷ rows) r h =
    ground (arith, eq_iff s.event_id k, event_id-find_event k rows r, h)

pub active-append : (rows : List Row) (r : Row) → active (rows ++ r ∷ []) ≤ active rows + 1
active-append [] r = ground arith
active-append (s ∷ rows) r = ground (arith, active-append rows r)

pub active-select : (keep : Row → Bool) (rows : List Row) → active (select keep rows) ≤ active rows
active-select keep [] = ground arith
active-select keep (r ∷ rows) = ground (arith, active-select keep rows)

-- An UPDATE that makes no row active that was not.
pub active-update_where :
    (test : Row → Bool) (change : Row → Row) (rows : List Row)
    → ((r : Row) → test r ≡ true → is_active (change r) ≡ true → is_active r ≡ true)
    → active (update_where test change rows) ≤ active rows
unfolding update_where
active-update_where test change [] calm = ground arith
active-update_where test change (r ∷ rows) calm =
    ground (arith, calm r, active-update_where test change rows calm)
