-- ===== src/Transport/Queue/Sending.antt =====
-- `dequeue`, `recover_expired_leases` and `mark_sent` of guardian/transport/local_queue.py.
use cyber_sage.Prelude.{
  ℕ, String, ◌+◌, ◌*◌, max, Bool, true, false, ◌&&◌, Option, none, some, List, [], ◌∷◌, map, ltb,
  nat_eq, if◌then◌else◌, take, select, count_if,
}
use cyber_sage.Transport.Queue.Rows.{
  pending, sending, sent, Row, EventQueue, is_pending, is_sending, update_where, member,
  order_by_created,
}

abbrev pub microseconds : ℕ
microseconds = 1000000

abbrev pub is_pending_row : Row → Bool
is_pending_row r = is_pending r.status

-- `SELECT … WHERE status = 'pending' ORDER BY created_at ASC LIMIT ?`
unfoldable pub next_batch : ℕ → EventQueue → List Row
next_batch batch_size q = take batch_size (order_by_created [] (select is_pending_row q.rows))

-- `id IN (…)`
abbrev pub has_id : List Row → Row → Bool
has_id [] r = false
has_id (s ∷ rows) r = if nat_eq s.id r.id then true else has_id rows r

abbrev pub lease_row : ℕ → ℕ → Row → Row
lease_row now lease r = record r {
  status = sending;
  updated_at = now;
  lease_expires_at = some lease;
}

abbrev pub data_of : Row → String
data_of r = r.event_data

-- The clock is read twice: for the update and for the lease. The event data of the answer is what
-- `json.loads` reads. Where no row is pending nothing is written.
unfoldable pub dequeue : ℕ → ℕ → (now clock : ℕ) → EventQueue → List String × EventQueue
unfolding next_batch update_where
dequeue batch_size lease_seconds now clock q =
    let batch = next_batch batch_size q in
    let lease = clock + max 30 lease_seconds * microseconds in
    (
      map data_of batch,
      record q { rows = update_where (has_id batch) (lease_row now lease) q.rows },
    )

abbrev pub lease_over : ℕ → Option ℕ → Bool
lease_over now none = true
lease_over now (some lease) = ltb lease now

abbrev pub is_crashed : ℕ → Row → Bool
is_crashed now r = is_sending r.status && lease_over now r.lease_expires_at

abbrev pub release : ℕ → Row → Row
release now r = record r { status = pending; updated_at = now; lease_expires_at = none }

-- The number is `cursor.rowcount`, the rows that the WHERE clause selects.
unfoldable pub recover_expired_leases : ℕ → EventQueue → ℕ × EventQueue
unfolding update_where
recover_expired_leases now q = (
  count_if (is_crashed now) q.rows,
  record q { rows = update_where (is_crashed now) (release now) q.rows },
)

abbrev pub is_answered : List String → Row → Bool
is_answered event_ids r = member r.event_id event_ids && is_sending r.status

abbrev pub settle : ℕ → Row → Row
settle now r = record r { status = sent; sent_at = some now; updated_at = now }

unfoldable pub mark_sent : List String → ℕ → EventQueue → ℕ × EventQueue
unfolding update_where
mark_sent event_ids now q = (
  count_if (is_answered event_ids) q.rows,
  record q { rows = update_where (is_answered event_ids) (settle now) q.rows },
)
