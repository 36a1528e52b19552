-- ===== src/Transport/Queue/Rows.antt =====
-- The table `guardian_events` of guardian/transport/local_queue.py, and the SQL that its methods
-- run. The first microsecond of the epoch is 0.
use cyber_sage.Prelude.{
  ℕ, String, Bool, true, false, not, Option, none, some, List, [], ◌∷◌, ltb, if◌then◌else◌,
  count_if, ◌==◌,
}

pub data EventStatus : Type 0 where
  pending sending failed sent : EventStatus

pub record Row : Type 0 where
  pub id : ℕ
  pub event_id : String
  pub event_data : String
  pub status : EventStatus
  pub attempt_count : ℕ
  pub max_retries : ℕ
  pub last_error : Option String
  pub created_at : ℕ
  pub updated_at : ℕ
  pub sent_at : Option ℕ
  pub lease_expires_at : Option ℕ
  pub byte_size : ℕ

-- `next_id` is what AUTOINCREMENT gives to the next row.
pub record EventQueue : Type 0 where
  pub rows : List Row
  pub next_id : ℕ
  pub max_size : ℕ

abbrev pub is_pending : EventStatus → Bool
is_pending pending = true
is_pending _ = false

abbrev pub is_sending : EventStatus → Bool
is_sending sending = true
is_sending _ = false

abbrev pub is_failed : EventStatus → Bool
is_failed failed = true
is_failed _ = false

abbrev pub is_sent : EventStatus → Bool
is_sent sent = true
is_sent _ = false

-- `WHERE status != 'sent'`
abbrev pub is_active : Row → Bool
is_active r = not (is_sent r.status)

-- `SELECT COUNT(*) FROM guardian_events WHERE status != ?`
abbrev pub active : List Row → ℕ
active rows = count_if is_active rows

-- `SELECT … WHERE event_id = ?`
unfoldable pub find_event : String → List Row → Option Row
find_event k [] = none
find_event k (r ∷ rows) = if r.event_id == k then some r else find_event k rows

-- `UPDATE guardian_events SET … WHERE …`
unfoldable pub update_where : (Row → Bool) → (Row → Row) → List Row → List Row
update_where test change [] = []
update_where test change (r ∷ rows) =
    (if test r then change r else r) ∷ update_where test change rows

abbrev pub member : String → List String → Bool
member k [] = false
member k (j ∷ ks) = if j == k then true else member k ks

-- The place of a row under `ORDER BY created_at ASC`: after the rows that were made no later.
abbrev pub place : Row → List Row → List Row
place r [] = r ∷ []
place r (s ∷ rows) = if ltb r.created_at s.created_at then r ∷ s ∷ rows else s ∷ place r rows

unfoldable pub order_by_created : List Row → List Row → List Row
order_by_created done [] = done
order_by_created done (r ∷ rows) = order_by_created (place r done) rows
