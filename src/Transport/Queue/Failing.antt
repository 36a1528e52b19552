-- ===== src/Transport/Queue/Failing.antt =====
-- `mark_failed`, `purge_sent`, `purge_failed` and `queue_stats` of
-- guardian/transport/local_queue.py.
use cyber_sage.Prelude.{
  ℕ, String, ◌+◌, ◌*◌, Bool, true, false, not, ◌&&◌, Option, none, some, List, [], ◌∷◌, ltb, leb,
  if◌then◌else◌, select, count_if, Result, ok, err, ◌==◌, first_chars,
}
use cyber_sage.Transport.Queue.Rows.{
  EventStatus, pending, failed, Row, EventQueue, is_pending, is_sending, is_failed, is_sent,
  find_event, update_where,
}
use cyber_sage.Transport.Queue.Storing.{QueueError, window_too_short}

abbrev pub status_after : Bool → ℕ → ℕ → EventStatus
status_after true count retries = failed
status_after false count retries = if leb retries count then failed else pending

abbrev pub named : String → Row → Bool
named k r = r.event_id == k

abbrev pub fail_row : EventStatus → ℕ → String → ℕ → Row → Row
fail_row status count error now r = record r {
  status = status;
  attempt_count = count;
  last_error = some (first_chars 1024 error);
  updated_at = now;
}

-- One round of the loop: the SELECT, then the UPDATE.
unfoldable pub fail_found : Option Row → String → String → Bool → ℕ → List Row → ℕ × List Row
unfolding update_where
fail_found none k error permanent now rows = (0, rows)
fail_found (some row) k error permanent now rows =
    let count = row.attempt_count + 1 in
    let status = status_after permanent count row.max_retries in
    (1, update_where (named k) (fail_row status count error now) rows)

unfoldable pub fail_loop : List String → String → Bool → ℕ → List Row → ℕ × List Row
unfolding fail_found
fail_loop [] error permanent now rows = (0, rows)
fail_loop (k ∷ ks) error permanent now rows =
    let (n, rows') = fail_found (find_event k rows) k error permanent now rows in
    let (m, rows'') = fail_loop ks error permanent now rows' in (n + m, rows'')

unfoldable pub mark_failed : List String → String → Bool → ℕ → EventQueue → ℕ × EventQueue
unfolding fail_loop
mark_failed event_ids error permanent now q =
    let (updated, rows) = fail_loop event_ids error permanent now q.rows in
    (updated, record q { rows = rows })

abbrev pub hours : ℕ → ℕ
hours n = n * 3600000000

-- `sent_at < cutoff`, which SQL does not hold true of NULL; the cutoff is `now` less the window.
abbrev pub older : ℕ → ℕ → Option ℕ → Bool
older window now none = false
older window now (some t) = ltb (t + hours window) now

abbrev pub is_old_sent : ℕ → ℕ → Row → Bool
is_old_sent window now r = is_sent r.status && older window now r.sent_at

abbrev pub is_old_failed : ℕ → ℕ → Row → Bool
is_old_failed window now r = is_failed r.status && older window now (some r.updated_at)

-- `DELETE FROM guardian_events WHERE …`
unfoldable pub delete_where : (Row → Bool) → EventQueue → ℕ × EventQueue
delete_where test q = (count_if test q.rows, record q { rows = select (λ r. not (test r)) q.rows })

unfoldable pub purge_sent : ℕ → ℕ → EventQueue → ℕ × EventQueue
unfolding delete_where
purge_sent window now q = delete_where (is_old_sent window now) q

unfoldable pub purge_failed : ℕ → ℕ → EventQueue → Result QueueError ℕ × EventQueue
unfolding delete_where
purge_failed window now q =
    if ltb window 24
    then (err window_too_short, q)
    else let (n, q') = delete_where (is_old_failed window now) q in (ok n, q')

-- `queue_stats`, without the percentage.
pub record Stats : Type 0 where
  pub pending_count : ℕ
  pub sending_count : ℕ
  pub failed_count : ℕ
  pub sent_count : ℕ
  pub total_active : ℕ
  pub capacity : ℕ

unfoldable pub queue_stats : EventQueue → Stats
queue_stats q =
    let p = count_if (λ r. is_pending r.status) q.rows in
    let s = count_if (λ r. is_sending r.status) q.rows in
    let f = count_if (λ r. is_failed r.status) q.rows in
    record {
      pending_count = p;
      sending_count = s;
      failed_count = f;
      sent_count = count_if (λ r. is_sent r.status) q.rows;
      total_active = p + s + f;
      capacity = q.max_size;
    }
