-- ===== src/Transport/Queue/Capacity.antt =====
-- How many events guardian/transport/local_queue.py keeps that are not sent.
use cyber_sage.Prelude.{
  ℕ, String, ◌≡◌, refl, ◌+◌, ◌*◌, ◌≤◌, max, Bool, true, false, not, Option, List, [], ◌∷◌, arith,
  if◌then◌else◌, inl, inr,
}
use cyber_sage.Transport.Queue.Rows.{Row, EventQueue, update_where, active}
use cyber_sage.Transport.Queue.Storing.{init}
use cyber_sage.Transport.Queue.Sending.{
  dequeue, recover_expired_leases, mark_sent, next_batch, has_id, lease_row, is_crashed, release,
  is_answered, settle, microseconds,
}
use cyber_sage.Transport.Queue.Failing.{
  mark_failed, purge_sent, purge_failed, delete_where, is_old_sent, is_old_failed,
}
use cyber_sage.Transport.Queue.Finding.{active-select, active-update_where}
use cyber_sage.Transport.Queue.Stored.{
  IsTable, IsBounded, step-IsBounded, enqueue-keeps, enqueue_batch-keeps,
}
use cyber_sage.Transport.Queue.Reported.{fail_loop-active, none_sent}
use cyber_sage.Transport.Queue.Numbers.{Numbered, Within, Within-taken}
use cyber_sage.Transport.Queue.Life.{apply-IsTable}
use cyber_sage.Transport.Queue.Calls.{
  Call, store, store_all, lease, recover, answer_ok, answer_error, drop_sent, drop_failed, apply,
  run,
}
use cyber_sage.Transport.Queue.Runs.{reached, init-IsTable}

module _ {E : Type 0} (event_id_of : E → Option String) (dumps : E → String)
    (utf8_size : String → ℕ) where
  -- No report of a failure names an event that was sent.
  abbrev pub is_fair : Call E → EventQueue → Bool
  is_fair (answer_error ks e p now) q = none_sent ks q.rows
  is_fair _ q = true

  abbrev pub is_orderly : List (Call E) → EventQueue → Bool
  is_orderly [] q = true
  is_orderly (c ∷ cs) q =
      let rest = is_orderly cs (apply event_id_of dumps utf8_size c q) in
      if is_fair c q then rest else false

  purged-IsBounded :
      (m w now : ℕ) (q : EventQueue) → IsBounded m q → IsBounded m (purge_failed w now q).1
  unfolding purge_failed delete_where
  purged-IsBounded m w now q h =
      ground (arith, h, active-select (λ r. not (is_old_failed w now r)) q.rows)

  leased_active :
      (n now expiry : ℕ) (q : EventQueue) (rows : List Row)
      → Numbered 1 q.rows q.next_id
      → ((r : Row) → Within r rows → Within r q.rows)
      → active (update_where (has_id (next_batch n q)) (lease_row now expiry) rows) ≤ active rows
  unfolding update_where
  leased_active n now expiry q [] num part = omega arith
  leased_active n now expiry q (r ∷ rows) num part = ground (
    arith,
    Within-taken 1 n q r num (part r (inl refl)),
    leased_active n now expiry q rows num (λ s w. part s (inr w)),
  )

  apply-IsBounded :
      (c : Call E) (m : ℕ) (q : EventQueue)
      → IsTable q
      → is_fair c q ≡ true
      → IsBounded m q
      → IsBounded m (apply event_id_of dumps utf8_size c q)
  unfolding apply recover_expired_leases mark_sent mark_failed dequeue purge_sent delete_where
  apply-IsBounded (store e now) m q tab f h =
      enqueue-keeps event_id_of dumps utf8_size (IsBounded m) now
        (λ o e q s. step-IsBounded event_id_of dumps utf8_size m o e now q s) e q h
  apply-IsBounded (store_all es now) m q tab f h =
      enqueue_batch-keeps event_id_of dumps utf8_size (IsBounded m) now
        (λ o e q s. step-IsBounded event_id_of dumps utf8_size m o e now q s) es q h
  apply-IsBounded (lease n s now clock) m q tab f h = (
    h.0,
    omega (
      arith,
      h.1,
      leased_active n now (clock + max 30 s * microseconds) q q.rows tab.numbered (λ r w. w),
    ),
  )
  apply-IsBounded (recover now) m q tab f h = (
    h.0,
    omega (
      arith,
      h.1,
      active-update_where (is_crashed now) (release now) q.rows (λ r t a. ground (arith, t)),
    ),
  )
  apply-IsBounded (answer_ok ks now) m q tab f h = (
    h.0,
    omega (
      arith,
      h.1,
      active-update_where (is_answered ks) (settle now) q.rows (λ r t a. ground (arith, t)),
    ),
  )
  apply-IsBounded (answer_error ks e p now) m q tab f h =
      (h.0, omega (arith, h.1, fail_loop-active ks e p now q.rows f))
  apply-IsBounded (drop_sent w now) m q tab f h =
      (h.0, omega (arith, h.1, active-select (λ r. not (is_old_sent w now r)) q.rows))
  apply-IsBounded (drop_failed w now) m q tab f h = purged-IsBounded m w now q h

  run-IsBounded :
      (cs : List (Call E)) (m : ℕ) (q : EventQueue)
      → IsTable q
      → is_orderly cs q ≡ true
      → IsBounded m q
      → IsBounded m (run event_id_of dumps utf8_size cs q)
  unfolding run
  run-IsBounded [] m q tab f h = h
  run-IsBounded (c ∷ cs) m q tab f h =
      run-IsBounded cs m (apply event_id_of dumps utf8_size c q)
        (apply-IsTable event_id_of dumps utf8_size c q tab) (ground (arith, f))
        (apply-IsBounded c m q tab (ground (arith, f)) h)

  -- A new queue never holds more events that are not sent than its capacity, whatever calls are
  -- made, as long as no failure is reported of an event that was sent.
  pub reached-bounded :
      (cs : List (Call E)) (m : ℕ)
      → is_orderly cs (init m) ≡ true
      → active (reached event_id_of dumps utf8_size cs m).rows ≤ m
  unfolding init
  reached-bounded cs m f =
      (run-IsBounded cs m (init m) (init-IsTable event_id_of dumps utf8_size m) f
        (refl, omega arith)).1
