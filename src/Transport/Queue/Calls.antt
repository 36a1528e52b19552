-- ===== src/Transport/Queue/Calls.antt =====
-- The calls of guardian/transport/local_queue.py that write, in any order.
use cyber_sage.Prelude.{ℕ, String, Bool, Option, List, [], ◌∷◌}
use cyber_sage.Transport.Queue.Rows.{EventQueue}
use cyber_sage.Transport.Queue.Storing.{enqueue, enqueue_batch}
use cyber_sage.Transport.Queue.Sending.{dequeue, recover_expired_leases, mark_sent}
use cyber_sage.Transport.Queue.Failing.{mark_failed, purge_sent, purge_failed}

pub data Call (E : Type 0) : Type 0 where
  store : E → ℕ → Call E
  store_all : List E → ℕ → Call E
  lease : (batch_size lease_seconds now clock : ℕ) → Call E
  recover : ℕ → Call E
  answer_ok : List String → ℕ → Call E
  answer_error : List String → String → Bool → ℕ → Call E
  drop_sent : (window now : ℕ) → Call E
  drop_failed : (window now : ℕ) → Call E

module _ {E : Type 0} (event_id_of : E → Option String) (dumps : E → String)
    (utf8_size : String → ℕ) where
  unfoldable pub apply : Call E → EventQueue → EventQueue
  apply (store event now) q = (enqueue event_id_of dumps utf8_size event now q).1
  apply (store_all events now) q = (enqueue_batch event_id_of dumps utf8_size events now q).1
  apply (lease batch_size lease_seconds now clock) q =
      (dequeue batch_size lease_seconds now clock q).1
  apply (recover now) q = (recover_expired_leases now q).1
  apply (answer_ok event_ids now) q = (mark_sent event_ids now q).1
  apply (answer_error event_ids error permanent now) q =
      (mark_failed event_ids error permanent now q).1
  apply (drop_sent window now) q = (purge_sent window now q).1
  apply (drop_failed window now) q = (purge_failed window now q).1

  unfoldable pub run : List (Call E) → EventQueue → EventQueue
  run [] q = q
  run (c ∷ cs) q = run cs (apply c q)
