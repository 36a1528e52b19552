-- ===== src/Transport/Queue/Views.antt =====
-- What is known of one event of guardian/transport/local_queue.py, and how its status may change.
use cyber_sage.Prelude.{ℕ, String, Bool, true, false, Option, none, some}
use cyber_sage.Transport.Queue.Rows.{EventStatus, pending, sending, failed, sent, Row}

-- What is known of an event: the status, and the data with the time of its storing.
abbrev pub status_at : Option Row → Option EventStatus
status_at none = none
status_at (some r) = some r.status

abbrev pub contents : Option Row → Option (String × ℕ)
contents none = none
contents (some r) = some (r.event_data, r.created_at)

-- How the status of an event may change. `sent` comes from `sending` only and `sending` from
-- `pending` only; a failure may be reported of any event; what is pending or being sent is never
-- deleted.
abbrev pub may_move : Option EventStatus → Option EventStatus → Bool
may_move none none = true
may_move none (some pending) = true
may_move none (some _) = false
may_move (some pending) none = false
may_move (some sending) none = false
may_move (some _) none = true
may_move (some _) (some failed) = true
may_move (some _) (some pending) = true
may_move (some pending) (some sending) = true
may_move (some sending) (some sending) = true
may_move (some sending) (some sent) = true
may_move (some sent) (some sent) = true
may_move (some _) (some _) = false
