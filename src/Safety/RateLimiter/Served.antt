-- ===== src/Safety/RateLimiter/Served.antt =====
-- guardian/safety/rate_limiter.py over any sequence of calls whose clock readings do not go back.
use cyber_sage.Prelude.{
  ℕ, ◌≤◌, String, ◌≡◌, refl, ap, ◌∙◌, not, Option, none, some, List, [], ◌∷◌, ◌++◌, arith, length,
  length-select, if◌then◌else◌, truthy, Bool-cases, inl, inr,
}
use cyber_sage.Prelude.Dict.{lookup, insert}
use cyber_sage.Safety.RateLimiter.{
  ActionRateLimiter, minute, hour, init, window, stale, prune, check_and_record, check_only, reset,
  reset_for,
}
use cyber_sage.Safety.RateLimiter.Promise.{
  Log, used, has_room, TracksLog, prune-eq, refused-Tracks, passed-Tracks, read-Tracks,
  forget-Tracks, all-Tracks-later, forget,
}

-- A call with the reading of its clock, or none where the clock raises.
pub data Request : Type 0 where
  act : String → Option ℕ → Request
  look : String → Option ℕ → Request
  clear : Option String → Request

unfoldable pub handle : Request → ActionRateLimiter → ActionRateLimiter
handle (act key clock) rl = (check_and_record key clock rl).1
handle (look key clock) rl = (check_only key clock rl).1
handle (clear key) rl = reset key rl

-- The log of the actions that were let through since the last reset.
unfoldable pub note : Request → ActionRateLimiter → Log → Log
note (act key none) rl log = log
note (act key (some now)) rl log =
    if (check_and_record key (some now) rl).0.0 then log ++ (key, now) ∷ [] else log
note (look key clock) rl log = log
note (clear key) rl log = forget (truthy key) log

unfoldable pub serve : List Request → ActionRateLimiter → Log → ActionRateLimiter × Log
serve [] rl log = (rl, log)
serve (r ∷ rs) rl log = serve rs (handle r rl) (note r rl log)

abbrev pub reading : ℕ → Option ℕ → ℕ
reading last none = last
reading last (some now) = now

abbrev pub moment : ℕ → Request → ℕ
moment last (act key clock) = reading last clock
moment last (look key clock) = reading last clock
moment last (clear key) = last

abbrev pub Timely : ℕ → List Request → Type 0
Timely last [] = Unit
Timely last (r ∷ rs) = (last ≤ moment last r) × Timely (moment last r) rs

abbrev pub end_time : ℕ → List Request → ℕ
end_time last [] = last
end_time last (r ∷ rs) = end_time (moment last r) rs

module _ (last now : ℕ) (rl : ActionRateLimiter) (log : Log) (key : String) (late : last ≤ now)
    (t : TracksLog last rl log) where
  minute_count : length (prune minute now (window key rl.minute_windows)) ≡ used minute now key log
  minute_count = ap length (prune-eq minute last now _ _ late (t.minutes key))

  hour_count : length (prune hour now (window key rl.hour_windows)) ≡ used hour now key log
  hour_count = ap length (prune-eq hour last now _ _ late (t.hours key))

  pub act-has_room : (check_and_record key (some now) rl).0.0 ≡ has_room rl now key log
  unfolding check_and_record
  act-has_room = ground (arith, minute_count, hour_count)

  pub look-has_room : (check_only key (some now) rl).0.0 ≡ has_room rl now key log
  unfolding check_only
  look-has_room = ground (
    arith,
    length-select (λ u. not (stale minute now u)) (window key rl.minute_windows),
    length-select (λ u. not (stale hour now u)) (window key rl.hour_windows),
    ap length ((t.minutes key).same now late),
    ap length ((t.hours key).same now late),
  )

  -- The state after a refusal, and after an action that passes.
  abbrev refused_state : ActionRateLimiter
  refused_state = record rl {
    minute_windows = insert key (prune minute now (window key rl.minute_windows)) rl.minute_windows;
    hour_windows = insert key (prune hour now (window key rl.hour_windows)) rl.hour_windows;
  }

  abbrev passed_state : ActionRateLimiter
  passed_state = record rl {
    minute_windows =
        insert key (prune minute now (window key rl.minute_windows) ++ now ∷ []) rl.minute_windows;
    hour_windows =
        insert key (prune hour now (window key rl.hour_windows) ++ now ∷ []) rl.hour_windows;
  }

  act_state :
      (check_and_record key (some now) rl).1
      ≡ (if (check_and_record key (some now) rl).0.0 then passed_state else refused_state)
  unfolding check_and_record
  act_state = ground arith

  act-TracksLog :
      TracksLog now (check_and_record key (some now) rl).1 (note (act key (some now)) rl log)
  unfolding note
  act-TracksLog = elim (Bool-cases (check_and_record key (some now) rl).0.0) [
    | inl ok ↦
        rw (act_state, ok)
          (record {
            minutes = passed-Tracks minute last now rl.minute_windows key log late t.minutes;
            hours = passed-Tracks hour last now rl.hour_windows key log late t.hours;
          })
    | inr full ↦
        rw (act_state, full)
          (record {
            minutes = refused-Tracks minute last now rl.minute_windows key log late t.minutes;
            hours = refused-Tracks hour last now rl.hour_windows key log late t.hours;
          })
  ]

TracksLog-later :
    (last now : ℕ) (rl : ActionRateLimiter) (log : Log)
    → last ≤ now
    → TracksLog last rl log
    → TracksLog now rl log
TracksLog-later last now rl log late t = record {
  minutes = all-Tracks-later minute last now rl.minute_windows "" log late t.minutes;
  hours = all-Tracks-later hour last now rl.hour_windows "" log late t.hours;
}

look-TracksLog :
    (last now : ℕ) (key : String) (rl : ActionRateLimiter) (log : Log)
    → last ≤ now
    → TracksLog last rl log
    → TracksLog now (check_only key (some now) rl).1 log
unfolding check_only
look-TracksLog last now key rl log late t =
    let later = TracksLog-later last now rl log late t in
    record {
      minutes = read-Tracks minute now now rl.minute_windows key log (omega arith) later.minutes;
      hours = read-Tracks hour now now rl.hour_windows key log (omega arith) later.hours;
    }

clear-TracksLog :
    (last : ℕ) (key : Option String) (rl : ActionRateLimiter) (log : Log)
    → TracksLog last rl log
    → TracksLog last (reset_for key rl) (forget key log)
unfolding reset_for lookup
clear-TracksLog last none rl log t = record {
  minutes = λ k. record { ordered = tt; same = λ m h. refl };
  hours = λ k. record { ordered = tt; same = λ m h. refl };
}
clear-TracksLog last (some key) rl log t = record {
  minutes = forget-Tracks minute last last rl.minute_windows key log (omega arith) t.minutes;
  hours = forget-Tracks hour last last rl.hour_windows key log (omega arith) t.hours;
}

pub handle-TracksLog :
    (last : ℕ) (r : Request) (rl : ActionRateLimiter) (log : Log)
    → last ≤ moment last r
    → TracksLog last rl log
    → TracksLog (moment last r) (handle r rl) (note r rl log)
handle-TracksLog last (act key none) rl log late t = unfold handle note check_and_record in t
handle-TracksLog last (act key (some now)) rl log late t =
    unfold handle in act-TracksLog last now rl log key late t
handle-TracksLog last (look key none) rl log late t = unfold handle note check_only in t
handle-TracksLog last (look key (some now)) rl log late t =
    unfold handle note in look-TracksLog last now key rl log late t
handle-TracksLog last (clear key) rl log late t =
    unfold handle note reset in clear-TracksLog last (truthy key) rl log t

pub serve-TracksLog :
    (last : ℕ) (rs : List Request) (rl : ActionRateLimiter) (log : Log)
    → Timely last rs
    → TracksLog last rl log
    → TracksLog (end_time last rs) (serve rs rl log).0 (serve rs rl log).1
unfolding serve
serve-TracksLog last [] rl log timely t = t
serve-TracksLog last (r ∷ rs) rl log timely t =
    serve-TracksLog (moment last r) rs (handle r rl) (note r rl log) timely.1
      (handle-TracksLog last r rl log timely.0 t)

pub config-handle :
    (r : Request) (rl : ActionRateLimiter)
    → ((handle r rl).max_per_minute ≡ rl.max_per_minute)
      × ((handle r rl).max_per_hour ≡ rl.max_per_hour)
unfolding handle check_and_record check_only reset
config-handle (act key clock) rl = ground arith
config-handle (look key clock) rl = ground arith
config-handle (clear key) rl = ground arith

pub config-serve :
    (rs : List Request) (rl : ActionRateLimiter) (log : Log)
    → ((serve rs rl log).0.max_per_minute ≡ rl.max_per_minute)
      × ((serve rs rl log).0.max_per_hour ≡ rl.max_per_hour)
unfolding serve
config-serve [] rl log = (refl, refl)
config-serve (r ∷ rs) rl log =
    let (m, h) = config-serve rs (handle r rl) (note r rl log) in
    (m ∙ (config-handle r rl).0, h ∙ (config-handle r rl).1)

pub TracksLog-init : (m h : ℕ) → TracksLog 0 (init m h) []
unfolding init lookup
TracksLog-init m h = record {
  minutes = λ k. record { ordered = tt; same = λ _ _. refl };
  hours = λ k. record { ordered = tt; same = λ _ _. refl };
}
