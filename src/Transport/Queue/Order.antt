-- ===== src/Transport/Queue/Order.antt =====
-- The order in which guardian/transport/local_queue.py hands events out.
use cyber_sage.Prelude.{
  ℕ, zero, suc, String, ◌≡◌, refl, ◌+◌, ◌*◌, ◌≤◌, max, Bool, true, false, not, Option, none, some,
  List, [], ◌∷◌, arith, map, if◌then◌else◌, select, Option-cases, Bool-cases, inl, inr, leb, subst,
  ap, take,
}
use cyber_sage.Transport.Queue.Rows.{Row, EventQueue, find_event, update_where}
use cyber_sage.Transport.Queue.Storing.{
  init, Summary, new_row, batch_step, insert_event, count_insert,
}
use cyber_sage.Transport.Queue.Sending.{
  dequeue, recover_expired_leases, mark_sent, next_batch, has_id, lease_row, is_crashed, release,
  is_answered, settle, microseconds, is_pending_row, data_of,
}
use cyber_sage.Transport.Queue.Failing.{
  mark_failed, fail_loop, fail_found, named, fail_row, status_after, purge_sent, purge_failed,
  delete_where, is_old_sent, is_old_failed,
}
use cyber_sage.Transport.Queue.Stored.{IsTable, enqueue-keeps, enqueue_batch-keeps}
use cyber_sage.Transport.Queue.Numbers.{Numbered, Within, Within-above}
use cyber_sage.Transport.Queue.Times.{
  Timed, Timed-raise, Timed-append, Timed-select, Timed-update_where, order_append,
}
use cyber_sage.Transport.Queue.Runs.{reached, run-IsTable, init-IsTable}
use cyber_sage.Transport.Queue.Calls.{
  Call, store, store_all, lease, recover, answer_ok, answer_error, drop_sent, drop_failed, apply,
  run,
}

abbrev pub drop : ℕ → List Row → List Row
drop zero rows = rows
drop (suc n) [] = []
drop (suc n) (r ∷ rows) = drop n rows

abbrev Agrees : ℕ → (Row → Bool) → List Row → List Row → Type 0
Agrees n test rows waiting = (s : Row) → Within s rows → test s ≡ has_id (take n waiting) s

later-Agrees :
    (n : ℕ) (test : Row → Bool) (r : Row) (rows waiting : List Row) (hi : ℕ)
    → Numbered (suc r.id) rows hi
    → Agrees (suc n) test (r ∷ rows) (r ∷ waiting)
    → Agrees n test rows waiting
later-Agrees n test r rows waiting hi num agree s w =
    ground (arith, agree s (inr w), Within-above s (suc r.id) hi rows num w)

none_leased :
    (now expiry : ℕ) (test : Row → Bool) (rows waiting : List Row)
    → Agrees 0 test rows waiting
    → update_where test (lease_row now expiry) rows ≡ rows
unfolding update_where
none_leased now expiry test [] waiting agree = refl
none_leased now expiry test (r ∷ rows) waiting agree =
    ground
      (arith, agree r (inl refl), none_leased now expiry test rows waiting (λ s w. agree s (inr w)))

-- Leasing the first pending rows leaves the others pending, in their order.
leased-rest :
    (n now expiry lo hi : ℕ) (test : Row → Bool) (rows : List Row)
    → Numbered lo rows hi
    → Agrees n test rows (select is_pending_row rows)
    → select is_pending_row (update_where test (lease_row now expiry) rows)
      ≡ drop n (select is_pending_row rows)
unfolding update_where
leased-rest zero now expiry lo hi test rows num agree =
    ap (select is_pending_row) (none_leased now expiry test rows (select is_pending_row rows) agree)
leased-rest (suc n) now expiry lo hi test [] num agree = refl
leased-rest (suc n) now expiry lo hi test (r ∷ rows) num agree =
    let rest = select is_pending_row rows in
    elim (Bool-cases (is_pending_row r)) [
      | inr fails ↦
          let others =
            subst (λ b. Agrees (suc n) test (r ∷ rows) (if b then r ∷ rest else rest)) fails
              agree in
          ground (
            arith,
            fails,
            leased-rest (suc n) now expiry (suc r.id) hi test rows num.1 (λ s w. others s (inr w)),
          )
      | inl holds ↦
          let others =
            subst (λ b. Agrees (suc n) test (r ∷ rows) (if b then r ∷ rest else rest)) holds
              agree in
          ground (
            arith,
            holds,
            others r (inl refl),
            leased-rest n now expiry (suc r.id) hi test rows num.1
                (later-Agrees n test r rows rest hi num.1 others),
          )
    ]

-- The last time of storing after a call.
abbrev pub stored_at : {E : Type 0} → ℕ → Call E → ℕ
stored_at last (store e now) = now
stored_at last (store_all es now) = now
stored_at last _ = last

-- The clock that storing reads does not go back.
abbrev pub is_timely : {E : Type 0} → ℕ → List (Call E) → Bool
is_timely last [] = true
is_timely last (c ∷ cs) =
    if leb last (stored_at last c) then is_timely (stored_at last c) cs else false

abbrev pub last_stored : {E : Type 0} → ℕ → List (Call E) → ℕ
last_stored last [] = last
last_stored last (c ∷ cs) = last_stored (stored_at last c) cs

loop-Timed :
    (js : List String) (e : String) (p : Bool) (now hi : ℕ) (rows : List Row)
    → Timed 0 rows hi
    → Timed 0 (fail_loop js e p now rows).1 hi
unfolding fail_loop fail_found
loop-Timed [] e p now hi rows t = t
loop-Timed (j ∷ js) e p now hi rows t = elim (Option-cases (find_event j rows)) [
  | inl absent ↦ rw absent (loop-Timed js e p now hi rows t)
  | inr (r, here) ↦ rw here (
      let count = r.attempt_count + 1 in
      let change = fail_row (status_after p count r.max_retries) count e now in
      loop-Timed js e p now hi (update_where (named j) change rows)
        (Timed-update_where (named j) change 0 hi rows (λ s. refl) t))
]

module _ {E : Type 0} (event_id_of : E → Option String) (dumps : E → String)
    (utf8_size : String → ℕ) where
  step-Timed :
      (o : Option String) (e : E) (now : ℕ) (q : EventQueue) (s : Summary)
      → Timed 0 q.rows now
      → Timed 0 (batch_step event_id_of dumps utf8_size o e now q s).1.rows now
  unfolding batch_step insert_event count_insert
  step-Timed none e now q s t = t
  step-Timed (some j) e now q s t = ground (
    arith,
    t,
    Timed-append 0 now q.rows (new_row event_id_of dumps utf8_size q.next_id j e now) refl t,
  )

  purged-Timed :
      (w now hi : ℕ) (q : EventQueue) → Timed 0 q.rows hi → Timed 0 (purge_failed w now q).1.rows hi
  unfolding purge_failed delete_where
  purged-Timed w now hi q t =
      ground (arith, t, Timed-select (λ r. not (is_old_failed w now r)) 0 hi q.rows t)

  apply-Timed :
      (c : Call E) (last : ℕ) (q : EventQueue)
      → last ≤ stored_at last c
      → Timed 0 q.rows last
      → Timed 0 (apply event_id_of dumps utf8_size c q).rows (stored_at last c)
  unfolding apply recover_expired_leases mark_sent mark_failed dequeue purge_sent delete_where
  apply-Timed (store e now) last q l t =
      enqueue-keeps event_id_of dumps utf8_size (λ q'. Timed 0 q'.rows now) now
        (λ o e q' s. step-Timed o e now q' s) e q (Timed-raise 0 last now q.rows l t)
  apply-Timed (store_all es now) last q l t =
      enqueue_batch-keeps event_id_of dumps utf8_size (λ q'. Timed 0 q'.rows now) now
        (λ o e q' s. step-Timed o e now q' s) es q (Timed-raise 0 last now q.rows l t)
  apply-Timed (lease n s now clock) last q l t =
      Timed-update_where (has_id (next_batch n q)) (lease_row now (clock + max 30 s * microseconds))
        0 last q.rows (λ r. refl) t
  apply-Timed (recover now) last q l t =
      Timed-update_where (is_crashed now) (release now) 0 last q.rows (λ r. refl) t
  apply-Timed (answer_ok ks now) last q l t =
      Timed-update_where (is_answered ks) (settle now) 0 last q.rows (λ r. refl) t
  apply-Timed (answer_error ks e p now) last q l t = loop-Timed ks e p now last q.rows t
  apply-Timed (drop_sent w now) last q l t =
      Timed-select (λ r. not (is_old_sent w now r)) 0 last q.rows t
  apply-Timed (drop_failed w now) last q l t = purged-Timed w now last q t

  run-Timed :
      (cs : List (Call E)) (last : ℕ) (q : EventQueue)
      → is_timely last cs ≡ true
      → Timed 0 q.rows last
      → Timed 0 (run event_id_of dumps utf8_size cs q).rows (last_stored last cs)
  unfolding run
  run-Timed [] last q f t = t
  run-Timed (c ∷ cs) last q f t =
      run-Timed cs (stored_at last c) (apply event_id_of dumps utf8_size c q) (ground (arith, f))
        (apply-Timed c last q (ground (arith, f)) t)

  next_batch-take :
      (n hi : ℕ) (q : EventQueue)
      → Timed 0 q.rows hi
      → next_batch n q ≡ take n (select is_pending_row q.rows)
  unfolding next_batch
  next_batch-take n hi q t = ap (take n) (
      order_append 0 hi [] (select is_pending_row q.rows)
        (Timed-select is_pending_row 0 hi q.rows t))

  dequeue_order :
      (n s now clock hi : ℕ) (q : EventQueue)
      → IsTable q
      → Timed 0 q.rows hi
      → ((dequeue n s now clock q).0 ≡ map data_of (take n (select is_pending_row q.rows)))
        × (select is_pending_row (dequeue n s now clock q).1.rows
            ≡ drop n (select is_pending_row q.rows))
  unfolding dequeue
  dequeue_order n s now clock hi q tab t = (
    ap (map data_of) (next_batch-take n hi q t),
    leased-rest n now (clock + max 30 s * microseconds) 1 q.next_id (has_id (next_batch n q)) q.rows
        tab.numbered (λ r w. ap (λ b. has_id b r) (next_batch-take n hi q t)),
  )

  -- Events leave in the order in which they were stored: after any calls on a new queue, by a
  -- clock that does not go back while events are stored, `dequeue` hands out the data of the first
  -- pending events, up to the size of the batch, and exactly the others stay pending, in order.
  pub dequeue_lem :
      (cs : List (Call E)) (m n s now clock : ℕ)
      → is_timely 0 cs ≡ true
      → ((dequeue n s now clock (reached event_id_of dumps utf8_size cs m)).0
          ≡ map data_of
              (take n (select is_pending_row (reached event_id_of dumps utf8_size cs m).rows)))
        × (select is_pending_row
              (dequeue n s now clock (reached event_id_of dumps utf8_size cs m)).1.rows
            ≡ drop n (select is_pending_row (reached event_id_of dumps utf8_size cs m).rows))
  unfolding init
  dequeue_lem cs m n s now clock f =
      dequeue_order n s now clock (last_stored 0 cs) (reached event_id_of dumps utf8_size cs m)
        (run-IsTable event_id_of dumps utf8_size cs (init m)
          (init-IsTable event_id_of dumps utf8_size m))
        (run-Timed cs 0 (init m) f (omega arith))
