-- ===== src/Transport/Queue/Accepting.antt =====
-- What `enqueue` and `enqueue_batch` of guardian/transport/local_queue.py answer.
use cyber_sage.Prelude.{
  ℕ, suc, String, ◌≡◌, refl, ◌+◌, ◌≤◌, ◌<◌, Bool, true, false, Option, none, some, List, [], ◌∷◌,
  arith, if◌then◌else◌, eq_refl, Option-cases, inl, inr, is_some, truthy, sym, ok, err, ◌↔◌, ap,
  ◌∙◌, count_if, length, length-append,
}
use cyber_sage.Transport.Queue.Rows.{EventQueue, find_event, active}
use cyber_sage.Transport.Queue.Storing.{
  queue_overflow, Summary, new_row, insert_event, inserted_or_kept, enqueue_as, enqueue,
  count_insert, batch_step, batch_loop, enqueue_batch,
}
use cyber_sage.Transport.Queue.Finding.{find_event-append}
use cyber_sage.Transport.Queue.Stored.{enqueue_as-batch_step}

module _ {E : Type 0} (event_id_of : E → Option String) (dumps : E → String)
    (utf8_size : String → ℕ) where
  -- An event with an identifier is stored exactly if it is not in the table and the table holds
  -- fewer events that are not sent than its capacity; it is called a duplicate, full or not,
  -- exactly if it is in the table; otherwise the call raises an overflow.
  pub enqueue_iff :
      (e : E) (now : ℕ) (k : String) (q : EventQueue)
      → truthy (event_id_of e) ≡ some k
      → (((enqueue event_id_of dumps utf8_size e now q).0 ≡ ok true)
          ↔ ((find_event k q.rows ≡ none) × (active q.rows < q.max_size)))
        × (((enqueue event_id_of dumps utf8_size e now q).0 ≡ ok false)
            ↔ (is_some (find_event k q.rows) ≡ true))
        × (((enqueue event_id_of dumps utf8_size e now q).0 ≡ err (queue_overflow q.max_size))
            ↔ ((find_event k q.rows ≡ none) × (q.max_size ≤ active q.rows)))
  unfolding enqueue enqueue_as insert_event inserted_or_kept
  enqueue_iff e now k q id = rw id (elim (Option-cases (find_event k q.rows)) [
    | inr (r, here) ↦ rw here (ground arith)
    | inl absent ↦ rw absent (ground arith)
  ])

  twice_as :
      (o : Option String) (e : E) (now later : ℕ) (b : Bool) (q : EventQueue)
      → (enqueue_as event_id_of dumps utf8_size o e now q).0 ≡ ok b
      → enqueue_as event_id_of dumps utf8_size o e later
          (enqueue_as event_id_of dumps utf8_size o e now q).1
        ≡ (ok false, (enqueue_as event_id_of dumps utf8_size o e now q).1)
  unfolding enqueue_as insert_event inserted_or_kept
  twice_as none e now later b q h = ground (arith, h)
  twice_as (some k) e now later b q h = ground (
    arith,
    h,
    eq_refl k,
    find_event-append k q.rows (new_row event_id_of dumps utf8_size q.next_id k e now),
  )

  -- Storing is idempotent: after an event was stored, or was found to be stored, storing it again
  -- at any time answers that it is a duplicate and changes nothing.
  pub enqueue-enqueue :
      (e : E) (now later : ℕ) (b : Bool) (q : EventQueue)
      → (enqueue event_id_of dumps utf8_size e now q).0 ≡ ok b
      → enqueue event_id_of dumps utf8_size e later (enqueue event_id_of dumps utf8_size e now q).1
        ≡ (ok false, (enqueue event_id_of dumps utf8_size e now q).1)
  unfolding enqueue
  enqueue-enqueue e now later b q h = twice_as (truthy (event_id_of e)) e now later b q h

  -- One call of `enqueue` for each event, where an error is passed over.
  abbrev pub store_each : List E → ℕ → EventQueue → EventQueue
  store_each [] now q = q
  store_each (e ∷ es) now q = store_each es now (enqueue event_id_of dumps utf8_size e now q).1

  loop-store_each :
      (es : List E) (now : ℕ) (q : EventQueue) (s : Summary)
      → (batch_loop event_id_of dumps utf8_size es now q s).1 ≡ store_each es now q
  unfolding batch_loop enqueue
  loop-store_each [] now q s = refl
  loop-store_each (e ∷ es) now q s =
      let o = truthy (event_id_of e) in
      let next = batch_step event_id_of dumps utf8_size o e now q s in
      loop-store_each es now next.1 next.0
      ∙ ap (store_each es now) (sym (enqueue_as-batch_step event_id_of dumps utf8_size o e now q s))

  abbrev pub has_id : E → Bool
  has_id e = is_some (truthy (event_id_of e))

  abbrev pub total : Summary → ℕ
  total s = s.inserted + s.duplicate + s.overflow

  step_counts :
      (o : Option String) (e : E) (now : ℕ) (q : EventQueue) (s : Summary)
      → (total (batch_step event_id_of dumps utf8_size o e now q s).0
          ≡ (if is_some o then suc (total s) else total s))
        × (length (batch_step event_id_of dumps utf8_size o e now q s).1.rows + s.inserted
            ≡ length q.rows + (batch_step event_id_of dumps utf8_size o e now q s).0.inserted)
  unfolding batch_step insert_event count_insert
  step_counts none e now q s = ground arith
  step_counts (some k) e now q s =
      ground
        (arith, length-append q.rows (new_row event_id_of dumps utf8_size q.next_id k e now ∷ []))

  loop_counts :
      (es : List E) (now : ℕ) (q : EventQueue) (s : Summary)
      → (total (batch_loop event_id_of dumps utf8_size es now q s).0 ≡ count_if has_id es + total s)
        × (length (batch_loop event_id_of dumps utf8_size es now q s).1.rows + s.inserted
            ≡ length q.rows + (batch_loop event_id_of dumps utf8_size es now q s).0.inserted)
  unfolding batch_loop
  loop_counts [] now q s = ground arith
  loop_counts (e ∷ es) now q s =
      let o = truthy (event_id_of e) in
      let next = batch_step event_id_of dumps utf8_size o e now q s in
      ground (arith, step_counts o e now q s, loop_counts es now next.1 next.0)

  -- A batch leaves the table that storing its events one by one would leave. Its summary counts
  -- every event that has an identifier once, and as inserted the rows that were added.
  pub enqueue_batch_lem :
      (es : List E) (now : ℕ) (q : EventQueue)
      → ((enqueue_batch event_id_of dumps utf8_size es now q).1 ≡ store_each es now q)
        × (total (enqueue_batch event_id_of dumps utf8_size es now q).0 ≡ count_if has_id es)
        × (length (enqueue_batch event_id_of dumps utf8_size es now q).1.rows
            ≡ length q.rows + (enqueue_batch event_id_of dumps utf8_size es now q).0.inserted)
  unfolding enqueue_batch
  enqueue_batch_lem es now q =
      let nothing : Summary = record { inserted = 0; duplicate = 0; overflow = 0 } in
      let counts = loop_counts es now q nothing in
      (loop-store_each es now q nothing, ground (arith, counts), ground (arith, counts))
