-- ===== src/Transport/Queue/Life.antt =====
-- The life of the events of guardian/transport/local_queue.py under any calls.
use cyber_sage.Prelude.{
  ℕ, String, ◌≡◌, refl, ◌+◌, Bool, true, not, Option, none, some, List, arith, select, Option-cases,
  inl, inr, max, ◌*◌,
}
use cyber_sage.Transport.Queue.Rows.{Row, EventQueue, find_event, update_where}
use cyber_sage.Transport.Queue.Storing.{Summary, batch_step, enqueue, enqueue_batch}
use cyber_sage.Transport.Queue.Sending.{
  dequeue, recover_expired_leases, mark_sent, next_batch, has_id, lease_row, is_crashed, release,
  is_answered, settle, microseconds,
}
use cyber_sage.Transport.Queue.Failing.{
  mark_failed, purge_sent, purge_failed, delete_where, is_old_sent, is_old_failed,
}
use cyber_sage.Transport.Queue.Finding.{
  changed, find_event-update_where, Unique, find_event-select, select-Unique, update_where-Unique,
}
use cyber_sage.Transport.Queue.Stored.{
  IsStored, IsStored-same, IsStored-trans, IsTable, step-IsStored, step-IsTable, enqueue-keeps,
  enqueue_batch-keeps,
}
use cyber_sage.Transport.Queue.Reported.{
  loop-IsReported, IsReported-may_move, loop-Unique, loop-Numbered,
}
use cyber_sage.Transport.Queue.Calls.{
  Call, store, store_all, lease, recover, answer_ok, answer_error, drop_sent, drop_failed, apply,
}
use cyber_sage.Transport.Queue.Numbers.{
  Numbered, Numbered-update_where, Numbered-select, taken-pending,
}
use cyber_sage.Transport.Queue.Views.{status_at, contents, may_move}

IsStored-may_move : (o p : Option Row) → IsStored o p → may_move (status_at o) (status_at p) ≡ true
IsStored-may_move none none h = refl
IsStored-may_move none (some p) h = ground (arith, h)
IsStored-may_move (some r) p h = ground (arith, h)

pub IsStored-contents :
    (o p : Option Row) (r : Row) → IsStored o p → o ≡ some r → contents p ≡ contents o
IsStored-contents none p r h i = ground (arith, i)
IsStored-contents (some s) p r h i = ground (arith, h)

module _ {E : Type 0} (event_id_of : E → Option String) (dumps : E → String)
    (utf8_size : String → ℕ) where
  updated-IsTable :
      (test : Row → Bool) (change : Row → Row) (q : EventQueue)
      → ((r : Row) → (change r).event_id ≡ r.event_id)
      → ((r : Row) → (change r).id ≡ r.id)
      → IsTable q
      → IsTable (record q { rows = update_where test change q.rows })
  updated-IsTable test change q same same' h = record {
    unique = update_where-Unique test change q.rows same h.unique;
    numbered = Numbered-update_where test change 1 q.next_id q.rows same' h.numbered;
  }

  selected-IsTable :
      (keep : Row → Bool) (q : EventQueue)
      → IsTable q
      → IsTable (record q { rows = select keep q.rows })
  selected-IsTable keep q h = record {
    unique = select-Unique keep q.rows h.unique;
    numbered = Numbered-select keep 1 q.next_id q.rows h.numbered;
  }

  pub apply-IsTable :
      (c : Call E) (q : EventQueue) → IsTable q → IsTable (apply event_id_of dumps utf8_size c q)
  unfolding apply recover_expired_leases mark_sent mark_failed purge_sent purge_failed delete_where
      dequeue
  apply-IsTable (store e now) q h =
      enqueue-keeps event_id_of dumps utf8_size IsTable now
        (λ o e q s. step-IsTable event_id_of dumps utf8_size o e now q s) e q h
  apply-IsTable (store_all es now) q h =
      enqueue_batch-keeps event_id_of dumps utf8_size IsTable now
        (λ o e q s. step-IsTable event_id_of dumps utf8_size o e now q s) es q h
  apply-IsTable (lease n s now clock) q h =
      updated-IsTable (has_id (next_batch n q)) (lease_row now (clock + max 30 s * microseconds)) q
        (λ r. refl) (λ r. refl) h
  apply-IsTable (recover now) q h =
      updated-IsTable (is_crashed now) (release now) q (λ r. refl) (λ r. refl) h
  apply-IsTable (answer_ok ks now) q h =
      updated-IsTable (is_answered ks) (settle now) q (λ r. refl) (λ r. refl) h
  apply-IsTable (answer_error ks e p now) q h = record {
    unique = loop-Unique ks e p now q.rows h.unique;
    numbered = loop-Numbered ks e p now q.next_id q.rows h.numbered;
  }
  apply-IsTable (drop_sent w now) q h = selected-IsTable (λ r. not (is_old_sent w now r)) q h
  apply-IsTable (drop_failed w now) q h =
      ground (arith, h, selected-IsTable (λ r. not (is_old_failed w now r)) q h)

  step-since :
      (r : Option Row) (k : String) (o : Option String) (e : E) (now : ℕ) (q : EventQueue)
      (s : Summary)
      → IsStored r (find_event k q.rows)
      → IsStored r (find_event k (batch_step event_id_of dumps utf8_size o e now q s).1.rows)
  step-since r k o e now q s h =
      IsStored-trans r (find_event k q.rows)
        (find_event k (batch_step event_id_of dumps utf8_size o e now q s).1.rows) h
        (step-IsStored event_id_of dumps utf8_size o e now k q s)

  pub enqueue-IsStored :
      (e : E) (now : ℕ) (k : String) (q : EventQueue)
      → IsStored
          (find_event k q.rows)
          (find_event k (enqueue event_id_of dumps utf8_size e now q).1.rows)
  enqueue-IsStored e now k q =
      enqueue-keeps event_id_of dumps utf8_size
        (λ q'. IsStored (find_event k q.rows) (find_event k q'.rows)) now
        (λ o e q' s. step-since (find_event k q.rows) k o e now q' s) e q
        (IsStored-same (find_event k q.rows))

  pub enqueue_batch-IsStored :
      (es : List E) (now : ℕ) (k : String) (q : EventQueue)
      → IsStored
          (find_event k q.rows)
          (find_event k (enqueue_batch event_id_of dumps utf8_size es now q).1.rows)
  enqueue_batch-IsStored es now k q =
      enqueue_batch-keeps event_id_of dumps utf8_size
        (λ q'. IsStored (find_event k q.rows) (find_event k q'.rows)) now
        (λ o e q' s. step-since (find_event k q.rows) k o e now q' s) es q
        (IsStored-same (find_event k q.rows))

  leased :
      (lo n now expiry : ℕ) (k : String) (q : EventQueue)
      → Numbered lo q.rows q.next_id
      → may_move (status_at (find_event k q.rows)) (
          status_at
            (changed (has_id (next_batch n q)) (lease_row now expiry) (find_event k q.rows)))
        ≡ true
  leased lo n now expiry k q num = elim (Option-cases (find_event k q.rows)) [
    | inl absent ↦ rw absent refl
    | inr (r, here) ↦ rw here (ground (arith, here, taken-pending lo n q k r num here))
  ]

  purged_sent :
      (w now : ℕ) (k : String) (q : EventQueue)
      → Unique q.rows
      → may_move
          (status_at (find_event k q.rows))
          (status_at (find_event k (purge_sent w now q).1.rows))
        ≡ true
  unfolding purge_sent delete_where
  purged_sent w now k q u =
      rw (find_event-select (λ r. not (is_old_sent w now r)) k q.rows u) (ground arith)

  purged_failed :
      (w now : ℕ) (k : String) (q : EventQueue)
      → Unique q.rows
      → may_move
          (status_at (find_event k q.rows))
          (status_at (find_event k (purge_failed w now q).1.rows))
        ≡ true
  unfolding purge_failed delete_where
  purged_failed w now k q u =
      ground (arith, find_event-select (λ r. not (is_old_failed w now r)) k q.rows u)

  pub apply-may_move :
      (c : Call E) (k : String) (q : EventQueue)
      → IsTable q
      → may_move
          (status_at (find_event k q.rows))
          (status_at (find_event k (apply event_id_of dumps utf8_size c q).rows))
        ≡ true
  unfolding apply enqueue_batch recover_expired_leases mark_sent mark_failed dequeue
  apply-may_move (store e now) k q h =
      IsStored-may_move (find_event k q.rows)
        (find_event k (enqueue event_id_of dumps utf8_size e now q).1.rows)
        (enqueue-IsStored e now k q)
  apply-may_move (store_all es now) k q h =
      IsStored-may_move (find_event k q.rows)
        (find_event k (enqueue_batch event_id_of dumps utf8_size es now q).1.rows)
        (enqueue_batch-IsStored es now k q)
  apply-may_move (lease n s now clock) k q h =
      rw
        (find_event-update_where (has_id (next_batch n q))
          (lease_row now (clock + max 30 s * microseconds)) k q.rows (λ r. refl))
        (leased 1 n now (clock + max 30 s * microseconds) k q h.numbered)
  apply-may_move (recover now) k q h =
      rw (find_event-update_where (is_crashed now) (release now) k q.rows (λ r. refl))
        (ground arith)
  apply-may_move (answer_ok ks now) k q h =
      rw (find_event-update_where (is_answered ks) (settle now) k q.rows (λ r. refl)) (ground arith)
  apply-may_move (answer_error ks e p now) k q h =
      IsReported-may_move (find_event k q.rows) (find_event k (mark_failed ks e p now q).1.rows)
        (loop-IsReported ks e p now k q.rows)
  apply-may_move (drop_sent w now) k q h = purged_sent w now k q h.unique
  apply-may_move (drop_failed w now) k q h = purged_failed w now k q h.unique
