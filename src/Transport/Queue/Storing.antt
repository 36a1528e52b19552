-- ===== src/Transport/Queue/Storing.antt =====
-- `EventQueue.__init__`, `enqueue` and `enqueue_batch` of guardian/transport/local_queue.py. An
-- event is a Python dict; `json.dumps`, its size in UTF-8 and its `event_id` entry are parameters.
use cyber_sage.Prelude.{
  ℕ, String, ◌+◌, Bool, true, false, Option, none, some, List, [], ◌∷◌, ◌++◌, leb, if◌then◌else◌,
  is_some, truthy, Result, ok, err,
}
use cyber_sage.Transport.Queue.Rows.{pending, Row, EventQueue, active, find_event}

pub data QueueError : Type 0 where
  missing_event_id : QueueError
  queue_overflow : ℕ → QueueError
  window_too_short : QueueError

unfoldable pub init : ℕ → EventQueue
init max_size = record { rows = []; next_id = 1; max_size = max_size }

-- What `enqueue_batch` counts.
pub record Summary : Type 0 where
  pub inserted : ℕ
  pub duplicate : ℕ
  pub overflow : ℕ

module _ {E : Type 0} (event_id_of : E → Option String) (dumps : E → String)
    (utf8_size : String → ℕ) where
  -- The columns that the INSERT names, and the defaults of the others.
  abbrev pub new_row : ℕ → String → E → ℕ → Row
  new_row id event_id event now = record {
    id = id;
    event_id = event_id;
    event_data = dumps event;
    status = pending;
    attempt_count = 0;
    max_retries = 5;
    last_error = none;
    created_at = now;
    updated_at = now;
    sent_at = none;
    lease_expires_at = none;
    byte_size = utf8_size (dumps event);
  }

  -- The INSERT; `none` is the IntegrityError of a second row with this `event_id`.
  unfoldable pub insert_event : String → E → ℕ → EventQueue → Option EventQueue
  insert_event event_id event now q =
      if is_some (find_event event_id q.rows)
      then none
      else some (record q {
        rows = q.rows ++ new_row q.next_id event_id event now ∷ [];
        next_id = q.next_id + 1;
      })

  unfoldable pub inserted_or_kept :
      Option EventQueue → EventQueue → Result QueueError Bool × EventQueue
  inserted_or_kept none q = (ok false, q)
  inserted_or_kept (some q') q = (ok true, q')

  unfoldable pub enqueue_as :
      Option String → E → ℕ → EventQueue → Result QueueError Bool × EventQueue
  unfolding insert_event inserted_or_kept
  enqueue_as none event now q = (err missing_event_id, q)
  enqueue_as (some event_id) event now q =
      if leb q.max_size (active q.rows)
      then if is_some (find_event event_id q.rows)
        then (ok false, q)
        else (err (queue_overflow q.max_size), q)
      else inserted_or_kept (insert_event event_id event now q) q

  unfoldable pub enqueue : E → ℕ → EventQueue → Result QueueError Bool × EventQueue
  unfolding enqueue_as
  enqueue event now q = enqueue_as (truthy (event_id_of event)) event now q

  unfoldable pub count_insert : Option EventQueue → EventQueue → Summary → Summary × EventQueue
  count_insert none q s = (record s { duplicate = s.duplicate + 1 }, q)
  count_insert (some q') q s = (record s { inserted = s.inserted + 1 }, q')

  -- One round of the loop.
  unfoldable pub batch_step : Option String → E → ℕ → EventQueue → Summary → Summary × EventQueue
  unfolding insert_event count_insert
  batch_step none event now q s = (s, q)
  batch_step (some event_id) event now q s =
      if is_some (find_event event_id q.rows)
      then (record s { duplicate = s.duplicate + 1 }, q)
      else if leb q.max_size (active q.rows)
      then (record s { overflow = s.overflow + 1 }, q)
      else count_insert (insert_event event_id event now q) q s

  unfoldable pub batch_loop : List E → ℕ → EventQueue → Summary → Summary × EventQueue
  unfolding batch_step
  batch_loop [] now q s = (s, q)
  batch_loop (event ∷ events) now q s =
      let (s', q') = batch_step (truthy (event_id_of event)) event now q s in
      batch_loop events now q' s'

  unfoldable pub enqueue_batch : List E → ℕ → EventQueue → Summary × EventQueue
  unfolding batch_loop
  enqueue_batch events now q =
      batch_loop events now q (record { inserted = 0; duplicate = 0; overflow = 0 })
