-- ===== src/Transport/Queue/Stored.antt =====
-- What storing does to the row of one event in guardian/transport/local_queue.py.
use cyber_sage.Prelude.{
  ℕ, String, ◌≡◌, refl, ◌≤◌, Option, none, some, List, [], ◌∷◌, ◌++◌, arith, Option-cases,
  Bool-cases, inl, inr, truthy, leb, subst, sym,
}
use cyber_sage.Transport.Queue.Rows.{pending, Row, EventQueue, find_event, active}
use cyber_sage.Transport.Queue.Storing.{
  Summary, new_row, insert_event, inserted_or_kept, enqueue_as, enqueue, count_insert, batch_step,
  batch_loop, enqueue_batch,
}
use cyber_sage.Transport.Queue.Finding.{
  or_added, find_event-append, Unique, append-Unique, active-append,
}
use cyber_sage.Transport.Queue.Numbers.{Numbered, Numbered-append}

-- Nothing, or its row was made.
abbrev pub IsStored : Option Row → Option Row → Type 0
IsStored none none = Unit
IsStored none (some r) = r.status ≡ pending
IsStored (some r) o = o ≡ some r

pub IsStored-same : (o : Option Row) → IsStored o o
IsStored-same none = tt
IsStored-same (some r) = refl

pub IsStored-trans : (o p s : Option Row) → IsStored o p → IsStored p s → IsStored o s
IsStored-trans none none s h i = i
IsStored-trans none (some r) none h i = tt
IsStored-trans none (some r) (some r') h i = ground (arith, h, i)
IsStored-trans (some r) none s h i = ground (arith, h)
IsStored-trans (some r) (some p) s h i = ground (arith, h, i)

added-IsStored :
    (k : String) (o : Option Row) (r : Row) → r.status ≡ pending → IsStored o (or_added k o r)
added-IsStored k none r h = ground (arith, h)
added-IsStored k (some s) r h = refl

-- What the database engine keeps of the table: an event has one row, and the keys rise.
pub record IsTable (q : EventQueue) : Type 0 where
  pub unique : Unique q.rows
  pub numbered : Numbered 1 q.rows q.next_id

-- No more than `m` events that are not sent, where `m` is the capacity.
abbrev pub IsBounded : ℕ → EventQueue → Type 0
IsBounded m q = (q.max_size ≡ m) × (active q.rows ≤ m)

module _ {E : Type 0} (event_id_of : E → Option String) (dumps : E → String)
    (utf8_size : String → ℕ) where
  abbrev row_for : ℕ → String → E → ℕ → Row
  row_for id j e now = new_row event_id_of dumps utf8_size id j e now

  pub step-IsStored :
      (o : Option String) (e : E) (now : ℕ) (k : String) (q : EventQueue) (s : Summary)
      → IsStored
          (find_event k q.rows)
          (find_event k (batch_step event_id_of dumps utf8_size o e now q s).1.rows)
  unfolding batch_step insert_event count_insert
  step-IsStored none e now k q s = IsStored-same (find_event k q.rows)
  step-IsStored (some j) e now k q s = elim (Option-cases (find_event j q.rows)) [
    | inr (r, here) ↦ rw here (IsStored-same (find_event k q.rows))
    | inl absent ↦ rw absent (elim (Bool-cases (leb q.max_size (active q.rows))) [
      | inl full ↦ rw full (IsStored-same (find_event k q.rows))
      | inr room ↦ rw room (
          rw (find_event-append k q.rows (row_for q.next_id j e now))
            (added-IsStored k (find_event k q.rows) (row_for q.next_id j e now) refl))
    ])
  ]

  pub step-IsTable :
      (o : Option String) (e : E) (now : ℕ) (q : EventQueue) (s : Summary)
      → IsTable q
      → IsTable (batch_step event_id_of dumps utf8_size o e now q s).1
  unfolding batch_step insert_event count_insert
  step-IsTable none e now q s h = h
  step-IsTable (some j) e now q s h = elim (Option-cases (find_event j q.rows)) [
    | inr (r, here) ↦ rw here h
    | inl absent ↦ rw absent (elim (Bool-cases (leb q.max_size (active q.rows))) [
      | inl full ↦ rw full h
      | inr room ↦ rw room (record {
        unique = append-Unique q.rows (row_for q.next_id j e now) h.unique absent;
        numbered =
            subst (λ n. Numbered 1 (q.rows ++ row_for q.next_id j e now ∷ []) n) (omega arith)
              (Numbered-append 1 q.next_id q.rows (row_for q.next_id j e now) refl h.numbered);
      })
    ])
  ]

  -- The table holds no more events that are not sent than its capacity.
  pub step-IsBounded :
      (m : ℕ) (o : Option String) (e : E) (now : ℕ) (q : EventQueue) (s : Summary)
      → IsBounded m q
      → IsBounded m (batch_step event_id_of dumps utf8_size o e now q s).1
  unfolding batch_step insert_event count_insert
  step-IsBounded m none e now q s h = h
  step-IsBounded m (some j) e now q s h = elim (Option-cases (find_event j q.rows)) [
    | inr (r, here) ↦ rw here h
    | inl absent ↦ rw absent (ground (arith, h, active-append q.rows (row_for q.next_id j e now)))
  ]

  -- One event is stored as a batch of one.
  pub enqueue_as-batch_step :
      (o : Option String) (e : E) (now : ℕ) (q : EventQueue) (s : Summary)
      → (enqueue_as event_id_of dumps utf8_size o e now q).1
        ≡ (batch_step event_id_of dumps utf8_size o e now q s).1
  unfolding enqueue_as batch_step insert_event count_insert inserted_or_kept
  enqueue_as-batch_step none e now q s = refl
  enqueue_as-batch_step (some j) e now q s = elim (Option-cases (find_event j q.rows)) [
    | inr (r, here) ↦ rw here (ground arith)
    | inl absent ↦ rw absent (ground arith)
  ]

  -- What one round keeps is kept by both calls.
  pub enqueue-keeps :
      (P : EventQueue → Type 0) (now : ℕ)
      → ((o : Option String) (e : E) (q : EventQueue) (s : Summary)
          → P q
          → P (batch_step event_id_of dumps utf8_size o e now q s).1)
      → (e : E) (q : EventQueue) → P q
      → P (enqueue event_id_of dumps utf8_size e now q).1
  unfolding enqueue
  enqueue-keeps P now step e q h =
      let s : Summary = record { inserted = 0; duplicate = 0; overflow = 0 } in
      let o = truthy (event_id_of e) in
      subst P (sym (enqueue_as-batch_step o e now q s)) (step o e q s h)

  loop-keeps :
      (P : EventQueue → Type 0) (now : ℕ)
      → ((o : Option String) (e : E) (q : EventQueue) (s : Summary)
          → P q
          → P (batch_step event_id_of dumps utf8_size o e now q s).1)
      → (es : List E) (q : EventQueue) (s : Summary) → P q
      → P (batch_loop event_id_of dumps utf8_size es now q s).1
  unfolding batch_loop
  loop-keeps P now step [] q s h = h
  loop-keeps P now step (e ∷ es) q s h =
      let o = truthy (event_id_of e) in
      let next = batch_step event_id_of dumps utf8_size o e now q s in
      loop-keeps P now step es next.1 next.0 (step o e q s h)

  pub enqueue_batch-keeps :
      (P : EventQueue → Type 0) (now : ℕ)
      → ((o : Option String) (e : E) (q : EventQueue) (s : Summary)
          → P q
          → P (batch_step event_id_of dumps utf8_size o e now q s).1)
      → (es : List E) (q : EventQueue) → P q
      → P (enqueue_batch event_id_of dumps utf8_size es now q).1
  unfolding enqueue_batch
  enqueue_batch-keeps P now step es q h =
      loop-keeps P now step es q (record { inserted = 0; duplicate = 0; overflow = 0 }) h
