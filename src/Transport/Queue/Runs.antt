-- ===== src/Transport/Queue/Runs.antt =====
-- What holds of guardian/transport/local_queue.py after any calls on a new queue.
use cyber_sage.Prelude.{
  ℕ, String, ◌≡◌, refl, ◌+◌, ◌*◌, max, Bool, true, false, ◌||◌, eq_refl, Option, none, some, List,
  [], ◌∷◌, arith, if◌then◌else◌, Option-cases, inl, inr, leb, ◌∙◌, count_if, length,
}
use cyber_sage.Transport.Queue.Rows.{
  pending, failed, Row, EventQueue, find_event, update_where, active, is_sent, is_pending,
  is_sending, is_failed,
}
use cyber_sage.Transport.Queue.Storing.{init, enqueue, enqueue_batch}
use cyber_sage.Transport.Queue.Sending.{
  dequeue, recover_expired_leases, mark_sent, next_batch, has_id, lease_row, is_crashed, release,
  is_answered, settle, microseconds,
}
use cyber_sage.Transport.Queue.Failing.{
  mark_failed, fail_loop, fail_found, named, fail_row, status_after, queue_stats,
}
use cyber_sage.Transport.Queue.Finding.{find_event-update_where, event_id-find_event}
use cyber_sage.Transport.Queue.Stored.{IsTable}
use cyber_sage.Transport.Queue.Reported.{loop-IsReported, IsReported-contents}
use cyber_sage.Transport.Queue.Views.{status_at, contents, may_move}
use cyber_sage.Transport.Queue.Life.{
  apply-IsTable, apply-may_move, IsStored-contents, enqueue-IsStored, enqueue_batch-IsStored,
}
use cyber_sage.Transport.Queue.Calls.{
  Call, store, store_all, lease, recover, answer_ok, answer_error, drop_sent, drop_failed, apply,
  run,
}

counts :
    (rows : List Row)
    → (count_if (λ r. is_pending r.status) rows
          + count_if (λ r. is_sending r.status) rows
          + count_if (λ r. is_failed r.status) rows
        ≡ active rows)
      × (active rows + count_if (λ r. is_sent r.status) rows ≡ length rows)
counts [] = ground arith
counts (r ∷ rows) = ground (arith, counts rows)

-- The counts of a queue add up: to its rows, and without the sent ones to what the capacity is
-- compared with.
pub queue_stats_lem :
    (q : EventQueue)
    → ((queue_stats q).total_active ≡ active q.rows)
      × ((queue_stats q).total_active + (queue_stats q).sent_count ≡ length q.rows)
unfolding queue_stats
queue_stats_lem q = ground (arith, counts q.rows)

abbrev pub count_at : Option Row → ℕ
count_at none = 0
count_at (some r) = r.attempt_count

-- A reported failure counts one attempt more. The event is given up if the failure is permanent
-- or the count has reached its retries, and is pending again if not, whatever status it had.
pub mark_failed_lem :
    (k error : String) (permanent : Bool) (now : ℕ) (q : EventQueue) (r : Row)
    → find_event k q.rows ≡ some r
    → (status_at (find_event k (mark_failed (k ∷ []) error permanent now q).1.rows) ≡ (
        if permanent || leb r.max_retries (r.attempt_count + 1) then some failed else some pending))
      × (count_at (find_event k (mark_failed (k ∷ []) error permanent now q).1.rows)
          ≡ r.attempt_count + 1)
      × ((mark_failed (k ∷ []) error permanent now q).0 ≡ 1)
unfolding mark_failed fail_loop fail_found
mark_failed_lem k error permanent now q r here = rw here (
    rw
      (find_event-update_where (named k)
        (fail_row (status_after permanent (r.attempt_count + 1) r.max_retries) (r.attempt_count + 1)
          error now)
        k q.rows (λ s. refl))
      (rw here (ground (arith, eq_refl k, event_id-find_event k q.rows r here))))

module _ {E : Type 0} (event_id_of : E → Option String) (dumps : E → String)
    (utf8_size : String → ℕ) where
  pub init-IsTable : (m : ℕ) → IsTable (init m)
  unfolding init
  init-IsTable m = record { unique = tt; numbered = omega arith }

  pub run-IsTable :
      (cs : List (Call E)) (q : EventQueue)
      → IsTable q
      → IsTable (run event_id_of dumps utf8_size cs q)
  unfolding run
  run-IsTable [] q h = h
  run-IsTable (c ∷ cs) q h =
      run-IsTable cs (apply event_id_of dumps utf8_size c q)
        (apply-IsTable event_id_of dumps utf8_size c q h)

  abbrev pub reached : List (Call E) → ℕ → EventQueue
  reached cs m = run event_id_of dumps utf8_size cs (init m)

  -- After any calls on a new queue, a further call moves the status of every event along the
  -- allowed changes only: an event becomes sent only from `sending` and `sending` only from
  -- `pending`, and an event that is pending or being sent is never deleted.
  pub reached-may_move :
      (cs : List (Call E)) (m : ℕ) (c : Call E) (k : String)
      → may_move
          (status_at (find_event k (reached cs m).rows))
          (status_at (find_event k (apply event_id_of dumps utf8_size c (reached cs m)).rows))
        ≡ true
  reached-may_move cs m c k =
      apply-may_move event_id_of dumps utf8_size c k (reached cs m)
        (run-IsTable cs (init m) (init-IsTable m))

  abbrev pub is_purge : Call E → Bool
  is_purge (drop_sent w now) = true
  is_purge (drop_failed w now) = true
  is_purge _ = false

  abbrev pub has_purge : List (Call E) → Bool
  has_purge [] = false
  has_purge (c ∷ cs) = if is_purge c then true else has_purge cs

  updated-contents :
      (test : Row → Bool) (change : Row → Row) (k : String) (rows : List Row)
      → ((r : Row) → (change r).event_id ≡ r.event_id)
      → ((r : Row) → contents (some (change r)) ≡ contents (some r))
      → contents (find_event k (update_where test change rows)) ≡ contents (find_event k rows)
  updated-contents test change k rows same keep =
      rw (find_event-update_where test change k rows same)
        (elim (Option-cases (find_event k rows)) [
          | inl absent ↦ rw absent refl
          | inr (r, here) ↦ rw here (ground (arith, keep r))
        ])

  apply-contents :
      (c : Call E) (k : String) (q : EventQueue) (r : Row)
      → is_purge c ≡ false
      → find_event k q.rows ≡ some r
      → contents (find_event k (apply event_id_of dumps utf8_size c q).rows)
        ≡ contents (find_event k q.rows)
  unfolding apply recover_expired_leases mark_sent mark_failed dequeue
  apply-contents (store e now) k q r h here =
      IsStored-contents (find_event k q.rows)
        (find_event k (enqueue event_id_of dumps utf8_size e now q).1.rows) r
        (enqueue-IsStored event_id_of dumps utf8_size e now k q) here
  apply-contents (store_all es now) k q r h here =
      IsStored-contents (find_event k q.rows)
        (find_event k (enqueue_batch event_id_of dumps utf8_size es now q).1.rows) r
        (enqueue_batch-IsStored event_id_of dumps utf8_size es now k q) here
  apply-contents (lease n s now clock) k q r h here =
      updated-contents (has_id (next_batch n q)) (lease_row now (clock + max 30 s * microseconds)) k
        q.rows (λ r. refl) (λ r. refl)
  apply-contents (recover now) k q r h here =
      updated-contents (is_crashed now) (release now) k q.rows (λ r. refl) (λ r. refl)
  apply-contents (answer_ok ks now) k q r h here =
      updated-contents (is_answered ks) (settle now) k q.rows (λ r. refl) (λ r. refl)
  apply-contents (answer_error ks e p now) k q r h here =
      IsReported-contents (find_event k q.rows) (find_event k (fail_loop ks e p now q.rows).1)
        (loop-IsReported ks e p now k q.rows)
  apply-contents (drop_sent w now) k q r h here = ground (arith, h)
  apply-contents (drop_failed w now) k q r h here = ground (arith, h)

  found : (d : String × ℕ) (o : Option Row) → contents o ≡ some d → (r : Row) × (o ≡ some r)
  found d none h = ground (arith, h)
  found d (some r) h = (r, refl)

  -- A stored event is neither lost nor altered: whatever calls follow, as long as none purges, the
  -- queue holds the data that was stored, with the time of its storing.
  pub run-contents :
      (cs : List (Call E)) (k : String) (q : EventQueue) (d : String × ℕ)
      → has_purge cs ≡ false
      → contents (find_event k q.rows) ≡ some d
      → contents (find_event k (run event_id_of dumps utf8_size cs q).rows) ≡ some d
  unfolding run
  run-contents [] k q d h here = here
  run-contents (c ∷ cs) k q d h here =
      let (r, there) = found d (find_event k q.rows) here in
      run-contents cs k (apply event_id_of dumps utf8_size c q) d (ground (arith, h))
        (apply-contents c k q r (ground (arith, h)) there ∙ here)
