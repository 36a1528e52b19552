-- ===== src/Transport/Tests.antt =====
-- Runs of guardian/transport/local_queue.py. An event is its identifier here, and is its own text.
use cyber_sage.Prelude.{
  ℕ, String, ◌≡◌, refl, ◌≤◌, true, false, Option, none, some, List, [], ◌∷◌, length, ok, map, take,
  select, ◌+◌,
}
use cyber_sage.Transport.Queue.Rows.{
  pending, sending, sent, Row, EventQueue, find_event, active, update_where, order_by_created,
}
use cyber_sage.Transport.Queue.Storing.{
  init, enqueue, enqueue_as, insert_event, inserted_or_kept, enqueue_batch, batch_loop, batch_step,
  count_insert,
}
use cyber_sage.Transport.Queue.Sending.{dequeue, next_batch, mark_sent, is_pending_row, data_of}
use cyber_sage.Transport.Queue.Failing.{mark_failed, fail_loop, fail_found}
use cyber_sage.Transport.Queue.Calls.{
  Call, store, store_all, lease, recover, answer_ok, answer_error, apply, run,
}
use cyber_sage.Transport.Queue.Accepting.{enqueue_batch_lem, store_each, total}
use cyber_sage.Transport.Queue.Runs.{reached, reached-may_move, run-contents}
use cyber_sage.Transport.Queue.Capacity.{reached-bounded, is_orderly}
use cyber_sage.Transport.Queue.Order.{dequeue_lem, drop}
use cyber_sage.Transport.Sync.{settle_upload, parsed, settle_upload_lem, was_sent, unanswered}
use cyber_sage.Transport.Queue.Views.{status_at, contents, may_move}

abbrev event_id : String → Option String
event_id e = some e

abbrev as_text : String → String
as_text e = e

abbrev size : String → ℕ
size e = 8

abbrev calls : List (Call String)
calls =
    store "a" 10
    ∷ store_all ("b" ∷ "a" ∷ "c" ∷ []) 20
    ∷ lease 2 300 30 30
    ∷ answer_ok ("a" ∷ []) 40
    ∷ answer_error ("b" ∷ []) "timeout" false 50
    ∷ []

abbrev after : EventQueue
after = reached event_id as_text size calls 3

-- Every definition that a run computes with.
statuses :
    (status_at (find_event "a" after.rows) ≡ some sent)
    × (status_at (find_event "b" after.rows) ≡ some pending)
    × (status_at (find_event "c" after.rows) ≡ some pending)
unfolding run apply init enqueue enqueue_as insert_event inserted_or_kept enqueue_batch batch_loop
    batch_step count_insert dequeue next_batch order_by_created update_where mark_sent mark_failed
    fail_loop fail_found find_event
statuses = (refl, refl, refl)

-- A failure reported of an event that was sent makes the queue exceed its capacity.
abbrev late : List (Call String)
late =
    store "a" 10
    ∷ lease 1 300 20 20
    ∷ answer_ok ("a" ∷ []) 30
    ∷ store "b" 40
    ∷ answer_error ("a" ∷ []) "timeout" false 50
    ∷ []

late_overflow : active (reached event_id as_text size late 1).rows ≡ 2
unfolding run apply init enqueue enqueue_as insert_event inserted_or_kept dequeue next_batch
    order_by_created update_where mark_sent mark_failed fail_loop fail_found find_event
late_overflow = refl

stores : (enqueue event_id as_text size "d" 60 (init 3)).0 ≡ ok true
unfolding enqueue enqueue_as insert_event inserted_or_kept init find_event
stores = refl

abbrev three : List String
three = "a" ∷ "b" ∷ "a" ∷ []

enqueue_batch_lem_example :
    ((enqueue_batch event_id as_text size three 10 (init 5)).1
      ≡ store_each event_id as_text size three 10 (init 5))
    × (total event_id as_text size (enqueue_batch event_id as_text size three 10 (init 5)).0 ≡ 3)
    × (length (enqueue_batch event_id as_text size three 10 (init 5)).1.rows
        ≡ length (init 5).rows + (enqueue_batch event_id as_text size three 10 (init 5)).0.inserted)
enqueue_batch_lem_example = enqueue_batch_lem event_id as_text size three 10 (init 5)

reached-may_move_example :
    may_move (status_at (find_event "c" (reached event_id as_text size calls 3).rows)) (
      status_at (
        find_event "c"
          (apply event_id as_text size
            (lease 5 300 60 60)
            (reached event_id as_text size calls 3)).rows))
    ≡ true
reached-may_move_example = reached-may_move event_id as_text size calls 3 (lease 5 300 60 60) "c"

stored_c : contents (find_event "c" after.rows) ≡ some ("c", 20)
unfolding run apply init enqueue enqueue_as insert_event inserted_or_kept enqueue_batch batch_loop
    batch_step count_insert dequeue next_batch order_by_created update_where mark_sent mark_failed
    fail_loop fail_found find_event
stored_c = refl

abbrev more : List (Call String)
more = lease 5 300 60 60 ∷ recover 70 ∷ answer_ok ("c" ∷ []) 80 ∷ []

run-contents_example :
    contents (find_event "c" (run event_id as_text size more after).rows) ≡ some ("c", 20)
run-contents_example = run-contents event_id as_text size more "c" after ("c", 20) refl stored_c

calls_orderly : is_orderly event_id as_text size calls (init 3) ≡ true
unfolding run apply init enqueue enqueue_as insert_event inserted_or_kept enqueue_batch batch_loop
    batch_step count_insert dequeue next_batch order_by_created update_where mark_sent mark_failed
    fail_loop fail_found find_event
calls_orderly = refl

reached-bounded_example : active (reached event_id as_text size calls 3).rows ≤ 3
reached-bounded_example = reached-bounded event_id as_text size calls 3 calls_orderly

dequeue_lem_example :
    ((dequeue 1 300 60 60 (reached event_id as_text size calls 3)).0
      ≡ map data_of (take 1 (select is_pending_row (reached event_id as_text size calls 3).rows)))
    × (select is_pending_row (dequeue 1 300 60 60 (reached event_id as_text size calls 3)).1.rows
        ≡ drop 1 (select is_pending_row (reached event_id as_text size calls 3).rows))
dequeue_lem_example = dequeue_lem event_id as_text size calls 3 1 300 60 60 refl

abbrev one_row : Row
one_row = record {
  id = 1;
  event_id = "a";
  event_data = "a";
  status = sending;
  attempt_count = 4;
  max_retries = 5;
  last_error = none;
  created_at = 10;
  updated_at = 20;
  sent_at = none;
  lease_expires_at = some 90;
  byte_size = 8;
}

abbrev one : EventQueue
one = record { rows = one_row ∷ []; next_id = 2; max_size = 3 }

finds_one : find_event "a" one.rows ≡ some one_row
unfolding find_event
finds_one = refl

-- Of a batch of two, the backend acknowledges one.
abbrev leased_two : EventQueue
leased_two =
    reached event_id as_text size (store_all ("a" ∷ "b" ∷ []) 10 ∷ lease 2 300 20 20 ∷ []) 5

sent_again :
    status_at (
      find_event "a"
        (settle_upload ("a" ∷ "b" ∷ []) (parsed ("a" ∷ []) []) "late" 30 leased_two).1.rows)
    ≡ some pending
unfolding run apply init enqueue_batch batch_loop batch_step insert_event count_insert dequeue
    next_batch order_by_created update_where mark_sent mark_failed fail_loop fail_found find_event
    settle_upload unanswered
sent_again = refl

settle_upload_lem_example :
    was_sent (
      find_event "a"
        (settle_upload ("a" ∷ "b" ∷ []) (parsed ("a" ∷ []) []) "late" 30 leased_two).1.rows)
    ≡ false
unfolding unanswered
settle_upload_lem_example =
    settle_upload_lem ("a" ∷ "b" ∷ []) ("a" ∷ []) [] "late" 30 leased_two "a" refl refl
