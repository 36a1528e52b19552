-- ===== src/Transport/Sync.antt =====
-- `SyncWorker._sync_once` of guardian/transport/sync.py after a batch was leased. What the upload
-- answers is an argument; the counters and the waiting of the worker are left out.
use cyber_sage.Prelude.{
  ℕ, String, ◌≡◌, refl, Bool, true, false, not, ◌||◌, Option, none, some, List, [], ◌∷◌,
  if◌then◌else◌, length, select, ◌==◌, eq_iff, arith, Bool-cases, inl, inr, sym, subst, ◌+◌,
}
use cyber_sage.Transport.Queue.Rows.{EventQueue, Row, find_event, member, is_sent}
use cyber_sage.Transport.Queue.Sending.{mark_sent}
use cyber_sage.Transport.Queue.Failing.{
  mark_failed, fail_loop, fail_found, named, fail_row, status_after,
}
use cyber_sage.Transport.Queue.Finding.{find_event-update_where, event_id-find_event}
use cyber_sage.Transport.Queue.Reported.{IsReported, loop-IsReported}
use cyber_sage.Transport.Queue.Views.{}

-- `_upload_batch`: the identifiers that the backend acknowledged and that it rejected, or one of
-- the two exceptions.
pub data Upload : Type 0 where
  parsed : (acknowledged quarantined : List String) → Upload
  transient_error : String → Upload
  permanent_error : String → Upload

-- The events that were neither acknowledged nor rejected.
unfoldable pub unanswered : List String → List String → List String → List String
unanswered event_ids acknowledged quarantined =
    select (λ k. not (member k acknowledged || member k quarantined)) event_ids

abbrev pub is_none_left : List String → Bool
is_none_left [] = true
is_none_left (k ∷ ks) = false

-- `message` is the text of the error that is raised for events without an answer.
unfoldable pub settle_upload :
    List String → Upload → (message : String) (now : ℕ) → EventQueue → ℕ × EventQueue
unfolding unanswered
settle_upload event_ids (permanent_error e) message now q =
    (0, (mark_failed event_ids e true now q).1)
settle_upload event_ids (transient_error e) message now q =
    (0, (mark_failed event_ids e false now q).1)
settle_upload event_ids (parsed acknowledged quarantined) message now q =
    let q1 = (mark_sent acknowledged now q).1 in
    let q2 = (mark_failed quarantined "permanent backend rejection" true now q1).1 in
    if is_none_left (unanswered event_ids acknowledged quarantined)
    then (length acknowledged, q2)
    else (0, (mark_failed event_ids message false now q2).1)

abbrev pub was_sent : Option Row → Bool
was_sent none = false
was_sent (some r) = is_sent r.status

reported_unsent : (o p : Option Row) → IsReported o p → was_sent o ≡ false → was_sent p ≡ false
reported_unsent none p h u = ground (arith, h, u)
reported_unsent (some r) none h u = refl
reported_unsent (some r) (some s) h u = ground (arith, h, u)

found_unsent :
    (k e : String) (p : Bool) (now : ℕ) (o : Option Row) (rows : List Row)
    → o ≡ find_event k rows
    → was_sent (find_event k (fail_found o k e p now rows).1) ≡ false
unfolding fail_found
found_unsent k e p now none rows h = ground (arith, h)
found_unsent k e p now (some r) rows h =
    let count = r.attempt_count + 1 in
    rw
      (find_event-update_where (named k) (fail_row (status_after p count r.max_retries) count e now)
        k rows (λ s. refl))
      (rw (sym h) (ground (arith, eq_iff r.event_id k, event_id-find_event k rows r (sym h))))

-- Whatever is reported to have failed is not sent afterwards.
loop_unsent :
    (k e : String) (p : Bool) (now : ℕ) (ks : List String) (rows : List Row)
    → member k ks ≡ true
    → was_sent (find_event k (fail_loop ks e p now rows).1) ≡ false
unfolding fail_loop
loop_unsent k e p now [] rows h = ground (arith, h)
loop_unsent k e p now (j ∷ ks) rows h =
    let rows' = (fail_found (find_event j rows) j e p now rows).1 in
    elim (Bool-cases (j == k)) [
      | inr other ↦ loop_unsent k e p now ks rows' (ground (arith, h, other))
      | inl same ↦
          let e' = (eq_iff j k).0 same in
          reported_unsent (find_event k rows') (find_event k (fail_loop ks e p now rows').1)
            (loop-IsReported ks e p now k rows')
            (subst (λ x. was_sent (find_event x rows') ≡ false) e'
              (found_unsent j e p now (find_event j rows) rows refl))
    ]

-- If the backend leaves one event of a batch without an answer, then no event of the batch is sent
-- afterwards: also those that it acknowledged are to be sent again or given up.
pub settle_upload_lem :
    (event_ids acknowledged quarantined : List String) (message : String) (now : ℕ) (q : EventQueue)
    (k : String)
    → is_none_left (unanswered event_ids acknowledged quarantined) ≡ false
    → member k event_ids ≡ true
    → was_sent (
        find_event k
          (settle_upload event_ids (parsed acknowledged quarantined) message now q).1.rows)
      ≡ false
unfolding settle_upload mark_failed
settle_upload_lem event_ids acknowledged quarantined message now q k left in_batch =
    let q1 = (mark_sent acknowledged now q).1 in
    let rows = (fail_loop quarantined "permanent backend rejection" true now q1.rows).1 in
    rw left (loop_unsent k message false now event_ids rows in_batch)
